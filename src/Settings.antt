-- ===== src/Settings.antt =====
-- DataCollector::Settings (include/system/data_collector.hpp) and `from_yaml`
-- (src/system/data_collector.cpp). yaml-cpp is the interface `Yaml`.
pub mod Throws
use kist_data_collector.Common.{
  ℕ, List, [], ◌∷◌, ◌++◌, Bool, true, false, ◌&&◌, Option, some, if◌then◌else◌,
}
use kist_data_collector.Common.Text.{Text, text}
use kist_data_collector.Common.Int.{ℤ, pos}
use kist_data_collector.Outcome.{◌>>=◌}
use kist_data_collector.Session.{is_empty}

-- What the code uses of YAML::Node. `at` is `operator[]` with a key, and `none` where it throws;
-- `as_… node fallback` is `node.as<T>(fallback)`; `defined` is the conversion to bool.
pub record Yaml : Type 1 where
  pub Node : Type 0
  pub at : Node → Text → Option Node
  pub defined : Node → Bool
  pub is_sequence : Node → Bool
  pub items : Node → List Node
  pub as_int : Node → ℤ → ℤ
  pub as_size : Node → ℕ → ℕ
  pub as_bool : Node → Bool → Bool
  pub as_text : Node → Text → Text

pub record Settings : Type 0 where
  pub domain_id : ℤ
  pub dds_uri : Text
  pub output_dir : Text
  pub task : Text
  pub cameras : List Text
  pub camera_queue_capacity : ℕ
  pub camera_reliable : Bool
  pub lowstate_enabled : Bool
  pub lowstate_queue_capacity : ℕ
  pub dex3_enabled : Bool
  pub dex3_queue_capacity : ℕ
  pub uwb_enabled : Bool
  pub uwb_queue_capacity : ℕ
  pub lowcmd_enabled : Bool
  pub lowcmd_queue_capacity : ℕ
  pub arm_sdk_enabled : Bool
  pub arm_sdk_queue_capacity : ℕ
  pub dex3_cmd_enabled : Bool
  pub dex3_cmd_queue_capacity : ℕ
  pub motion_token_enabled : Bool
  pub motion_token_queue_capacity : ℕ

-- The members' initial values.
unfoldable pub default_settings : Settings
default_settings = record {
  domain_id = pos 0;
  dds_uri = [];
  output_dir = text "sessions";
  task = [];
  cameras = [];
  camera_queue_capacity = 1024;
  camera_reliable = true;
  lowstate_enabled = false;
  lowstate_queue_capacity = 8192;
  dex3_enabled = false;
  dex3_queue_capacity = 4096;
  uwb_enabled = false;
  uwb_queue_capacity = 256;
  lowcmd_enabled = false;
  lowcmd_queue_capacity = 8192;
  arm_sdk_enabled = false;
  arm_sdk_queue_capacity = 8192;
  dex3_cmd_enabled = false;
  dex3_cmd_queue_capacity = 4096;
  motion_token_enabled = false;
  motion_token_queue_capacity = 4096;
}

module _ (Y : Yaml) where
  open Y use {Node, at, defined, is_sequence, items, as_int, as_size, as_bool, as_text}

  abbrev pub name_of : Node → Option (List Text)
  name_of cam = do
    name ← at cam (text "name")
    some (if is_empty (as_text name []) then [] else as_text name [] ∷ [])

  -- One round of the loop over `cameras`: a camera is on unless it says otherwise, and needs a name.
  abbrev pub camera_name : Node → Option (List Text)
  camera_name cam = do
    enabled ← at cam (text "enabled")
    (if as_bool enabled true then name_of cam else some [])

  unfoldable pub camera_names : List Node → List Text → Option (List Text)
  camera_names [] names = some names
  camera_names (cam ∷ cams) names = do name ← camera_name cam; camera_names cams (names ++ name)

  abbrev pub names_under : Node → Option (List Text)
  names_under rs = do
    cams ← at rs (text "cameras")
    (if defined cams && is_sequence cams then camera_names (items cams) [] else some [])

  abbrev pub listed_cameras : Node → Option (List Text)
  listed_cameras rs = do
    enabled ← at rs (text "enabled")
    (if as_bool enabled true then names_under rs else some [])

  abbrev pub camera_section : Settings → Node → Option Settings
  camera_section s rs = do
    capacity ← at rs (text "queue_capacity")
    reliable ← at rs (text "reliable")
    cameras ← listed_cameras rs
    some (record s {
      camera_queue_capacity = as_size capacity s.camera_queue_capacity;
      camera_reliable = as_bool reliable s.camera_reliable;
      cameras = s.cameras ++ cameras;
    })

  abbrev pub section_values : ℕ → Node → Option (Bool × ℕ)
  section_values capacity section = do
    e ← at section (text "enabled")
    c ← at section (text "queue_capacity")
    some (as_bool e false, as_size c capacity)

  -- `enabled` and `queue_capacity` of one stream's section, if the section is there.
  unfoldable pub stream_section : Node → Text → Bool → ℕ → Option (Bool × ℕ)
  stream_section root key enabled capacity = do
    section ← at root key
    (if defined section then section_values capacity section else some (enabled, capacity))

  -- A text under `section.key`, or the fallback where the section is missing.
  abbrev pub text_under : Node → Text → Text → Option Text
  text_under section key fallback =
      if defined section
      then (do node ← at section key; some (as_text node fallback))
      else some fallback

  abbrev pub int_under : Node → Text → ℤ → Option ℤ
  int_under section key fallback =
      if defined section
      then (do node ← at section key; some (as_int node fallback))
      else some fallback

  -- `none` is an exception of yaml-cpp.
  unfoldable pub from_yaml : Node → Option Settings
  unfolding default_settings camera_names stream_section
  from_yaml root = do
    let s = default_settings
    unitree ← at root (text "unitree")
    domain_id ← int_under unitree (text "domain_id") (pos 0)
    storage ← at root (text "storage")
    output_dir ← text_under storage (text "output_dir") (text "sessions")
    rs ← at root (text "realsense_cameras")
    s' ← (if defined rs then camera_section s rs else some s)
    ls ← stream_section root (text "lowstate") s.lowstate_enabled s.lowstate_queue_capacity
    dx ← stream_section root (text "dex3") s.dex3_enabled s.dex3_queue_capacity
    uw ← stream_section root (text "uwb") s.uwb_enabled s.uwb_queue_capacity
    lc ← stream_section root (text "lowcmd") s.lowcmd_enabled s.lowcmd_queue_capacity
    arm ← stream_section root (text "arm_sdk") s.arm_sdk_enabled s.arm_sdk_queue_capacity
    dc ← stream_section root (text "dex3_cmd") s.dex3_cmd_enabled s.dex3_cmd_queue_capacity
    mt ←
        stream_section root (text "motion_token") s.motion_token_enabled
          s.motion_token_queue_capacity
    task ← at root (text "task")
    some (record s' {
      domain_id = domain_id;
      output_dir = output_dir;
      lowstate_enabled = ls.0;
      lowstate_queue_capacity = ls.1;
      dex3_enabled = dx.0;
      dex3_queue_capacity = dx.1;
      uwb_enabled = uw.0;
      uwb_queue_capacity = uw.1;
      lowcmd_enabled = lc.0;
      lowcmd_queue_capacity = lc.1;
      arm_sdk_enabled = arm.0;
      arm_sdk_queue_capacity = arm.1;
      dex3_cmd_enabled = dc.0;
      dex3_cmd_queue_capacity = dc.1;
      motion_token_enabled = mt.0;
      motion_token_queue_capacity = mt.1;
      task = if defined task then as_text task [] else [];
    })
