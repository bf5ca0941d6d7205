-- ===== src/Collector/Start.antt =====
-- DataCollector::start (src/system/data_collector.cpp).
use kist_data_collector.Common.{
  ℕ, List, [], ◌∷◌, ◌++◌, map, Bool, true, false, not, ◌&&◌, Option, none, some, if◌then◌else◌,
}
use kist_data_collector.Common.Text.{Text, text}
use kist_data_collector.Common.Int.{ℤ}
use kist_data_collector.Session.{
  MetaWrite, SessionInfo, is_empty, session_create, session_write_meta,
}
use kist_data_collector.Settings.{Settings}
use kist_data_collector.Collector.{Parts, Collector, CamLast, no_last}

-- The environment of one call: the clock, its calendar forms, whether the directory can be created,
-- and the file system's answer to the writing of meta.yaml, with what that file held before.
pub record Scene : Type 0 where
  pub started_ns : ℤ
  pub local_stamp : Text
  pub created : Bool
  pub started_utc : Text
  pub found_meta : Text
  pub meta_write : MetaWrite

abbrev pub is_nil {ℓ} : {A : Type ℓ} → List A → Bool
is_nil [] = true
is_nil (x ∷ xs) = false

abbrev pub is_none {ℓ} : {A : Type ℓ} → Option A → Bool
is_none none = true
is_none (some a) = false

unfoldable pub nothing_enabled : Settings → Bool
nothing_enabled s =
    is_nil s.cameras
    && not s.lowstate_enabled
    && not s.dex3_enabled
    && not s.uwb_enabled
    && not s.lowcmd_enabled
    && not s.arm_sdk_enabled
    && not s.dex3_cmd_enabled
    && not s.motion_token_enabled

-- The two sides, and `kLowCmdTopic` and `kArmSdkTopic` with their files.
abbrev sides : List Text
sides = text "left" ∷ text "right" ∷ []

-- `continue` on a failed start, `push_back` otherwise.
abbrev pub kept {ℓ} : {A : Type ℓ} → Option A → List A → List A
kept none rest = rest
kept (some a) rest = a ∷ rest

abbrev pub named {ℓ} : {A : Type ℓ} → Text → Option A → Option (Text × A)
named name none = none
named name (some a) = some (name, a)

-- `.assign(n, {})`
abbrev pub zeros_for {ℓ κ} : {A : Type ℓ} {B : Type κ} → B → List A → List B
zeros_for z [] = []
zeros_for z (x ∷ xs) = z ∷ zeros_for z xs

abbrev pub no_cam_last : CamLast
no_cam_last = record { c_rx = 0; c_wr = 0; d_rx = 0; d_wr = 0 }

module _ (P : Parts) where
  open P use {
    Camera, Stream, start_camera, start_lowstate, start_dex3, start_uwb, start_lowcmd,
    start_dex3_cmd, start_motion_token,
  }

  -- The loop over `settings_.cameras`; each camera started stands behind its name.
  abbrev pub started_cameras : Settings → Text → List Text → List (Text × Camera)
  started_cameras s dir [] = []
  started_cameras s dir (name ∷ names) =
      kept
        (named name (start_camera s.domain_id name dir s.camera_queue_capacity s.camera_reliable))
        (started_cameras s dir names)

  abbrev started_sides : (Text → Option Stream) → List Text → List Stream
  started_sides start [] = []
  started_sides start (side ∷ rest) = kept (start side) (started_sides start rest)

  abbrev pub both_sides : Bool → (Text → Option Stream) → List Stream
  both_sides enabled start = if enabled then started_sides start sides else []

  abbrev started_one : Bool → Option Stream → Option Stream
  started_one enabled start = if enabled then start else none

  -- One entry of the loop over the two `BodyCmd`s.
  abbrev pub body_cmd : Settings → Text → Bool → ℕ → Text → Text → Option Stream
  body_cmd s dir enabled capacity topic csv =
      if enabled then start_lowcmd s.domain_id [] dir capacity topic csv else none

  -- The recorders, started in the source's order.
  unfoldable pub start_recorders : Settings → Text → Collector P → Collector P
  start_recorders s dir c = record c {
    cameras = c.cameras ++ map (λ p. p.1) (started_cameras s dir s.cameras);
    lowstate =
        if s.lowstate_enabled
        then start_lowstate s.domain_id [] dir s.lowstate_queue_capacity
        else c.lowstate;
    hands =
        c.hands
        ++ both_sides s.dex3_enabled
            (λ side. start_dex3 s.domain_id [] dir side s.dex3_queue_capacity);
    uwb = if s.uwb_enabled then start_uwb s.domain_id [] dir s.uwb_queue_capacity else c.uwb;
    body_cmds =
        c.body_cmds
        ++ kept
            (body_cmd s dir s.lowcmd_enabled s.lowcmd_queue_capacity (text "rt/lowcmd")
              (text "lowcmd.csv"))
            (kept
              (body_cmd s dir s.arm_sdk_enabled s.arm_sdk_queue_capacity (text "rt/arm_sdk")
                (text "arm_sdk.csv"))
              []);
    hand_cmds =
        c.hand_cmds
        ++ both_sides s.dex3_cmd_enabled
            (λ side. start_dex3_cmd s.domain_id [] dir side s.dex3_cmd_queue_capacity);
    motion_token =
        if s.motion_token_enabled
        then start_motion_token s.domain_id [] dir s.motion_token_queue_capacity
        else c.motion_token;
  }

  unfoldable pub holds_nothing : Collector P → Bool
  holds_nothing c =
      is_nil c.cameras
      && is_none c.lowstate
      && is_nil c.hands
      && is_none c.uwb
      && is_nil c.body_cmds
      && is_nil c.hand_cmds
      && is_none c.motion_token

  -- What `start` does once a recorder runs. The other members of `last_…` keep their values.
  unfoldable pub announce : Scene → Text → Collector P → Collector P
  announce e meta c = record c {
    meta = meta;
    last_cam = zeros_for no_cam_last c.cameras;
    last_hand = zeros_for no_last c.hands;
    last_body_cmd = zeros_for no_last c.body_cmds;
    last_hand_cmd = zeros_for no_last c.hand_cmds;
    running = true;
  }

  abbrev pub finish_start : Scene → Text → Collector P → Collector P × Bool
  finish_start e meta c = if holds_nothing c then (c, false) else (announce e meta c, true)

  abbrev pub start_in : Scene → SessionInfo → Settings → Collector P → Collector P × Bool
  start_in e session s c =
      if is_empty session.dir
      then (record c { session = session }, false)
      else finish_start e
          (session_write_meta e.meta_write e.found_meta e.started_utc session s.domain_id s.dds_uri
            (map (λ p. p.0) (started_cameras s session.dir s.cameras)) s.task)
          (start_recorders s session.dir (record c { session = session }))

  unfoldable pub start : Scene → Settings → Collector P → Collector P × Bool
  start e settings c =
      if c.running
      then (c, true)
      else if nothing_enabled settings
      then (record c { settings = settings }, false)
      else start_in e (session_create e.started_ns e.local_stamp e.created settings.output_dir)
          settings (record c { settings = settings })
