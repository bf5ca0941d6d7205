-- ===== src/Collector.antt =====
-- DataCollector (include/system/data_collector.hpp, src/system/data_collector.cpp): every enabled
-- recorder behind one start and stop. The recorders are the interface `Parts`. A recorder that
-- `start` made is one that has started: one that fails to start is thrown away.
pub mod Start
pub mod Report
pub mod Stop
mod Fits
pub mod Runs
pub mod Windows
pub mod Rates
pub mod Summary
pub mod Plain
pub mod Printed
use kist_data_collector.Common.{ℕ, List, [], Bool, false, Option, none}
use kist_data_collector.Common.Text.{Text}
use kist_data_collector.Common.Int.{ℤ, pos}
use kist_data_collector.Session.{SessionInfo}
use kist_data_collector.Settings.{Settings, default_settings}
use kist_data_collector.Stream.{StreamStats}

-- What the collector asks of the recorders. `none` is a start that returned false. The arguments
-- are those of the calls: domain, interface, directory, and what is each recorder's own.
pub record Parts : Type 1 where
  pub Camera : Type 0
  pub Stream : Type 0
  pub start_camera : ℤ → Text → Text → ℕ → Bool → Option Camera
  pub start_lowstate : ℤ → Text → Text → ℕ → Option Stream
  pub start_dex3 : ℤ → Text → Text → Text → ℕ → Option Stream
  pub start_uwb : ℤ → Text → Text → ℕ → Option Stream
  pub start_lowcmd : ℤ → Text → Text → ℕ → Text → Text → Option Stream
  pub start_dex3_cmd : ℤ → Text → Text → Text → ℕ → Option Stream
  pub start_motion_token : ℤ → Text → Text → ℕ → Option Stream
  pub stop_camera : Camera → Camera
  pub stop_stream : Stream → Stream
  pub color_stats : Camera → StreamStats
  pub depth_stats : Camera → StreamStats
  pub stats : Stream → StreamStats
  pub name : Camera → Text
  -- `side()` or `label()`
  pub tag : Stream → Text

-- The previous window's counters of a camera.
pub record CamLast : Type 0 where
  pub c_rx : ℕ
  pub c_wr : ℕ
  pub d_rx : ℕ
  pub d_wr : ℕ

-- The previous window's counters of another stream, received and written.
pub record Last : Type 0 where
  pub rx : ℕ
  pub wr : ℕ

-- `meta` is what meta.yaml of the session holds.
pub record Collector (P : Parts) : Type 0 where
  pub settings : Settings
  pub session : SessionInfo
  pub meta : Text
  pub cameras : List P.Camera
  pub lowstate : Option P.Stream
  pub hands : List P.Stream
  pub uwb : Option P.Stream
  pub body_cmds : List P.Stream
  pub hand_cmds : List P.Stream
  pub motion_token : Option P.Stream
  pub last_cam : List CamLast
  pub last_ls : Last
  pub last_uw : Last
  pub last_hand : List Last
  pub last_body_cmd : List Last
  pub last_hand_cmd : List Last
  pub last_mt : Last
  pub running : Bool

abbrev pub no_last : Last
no_last = record { rx = 0; wr = 0 }

-- The members' initial values.
unfoldable pub new_collector : (P : Parts) → Collector P
new_collector P = record {
  settings = default_settings;
  session = record { dir = []; started_ns = pos 0 };
  meta = [];
  cameras = [];
  lowstate = none;
  hands = [];
  uwb = none;
  body_cmds = [];
  hand_cmds = [];
  motion_token = none;
  last_cam = [];
  last_ls = no_last;
  last_uw = no_last;
  last_hand = [];
  last_body_cmd = [];
  last_hand_cmd = [];
  last_mt = no_last;
  running = false;
}
