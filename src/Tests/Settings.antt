-- ===== src/Tests/Settings.antt =====
-- `from_yaml` at a config that has a `unitree` section and nothing else.
use kist_data_collector.Common.{
  Bool, ◌≡◌, ◌∷◌, arith, some_injective, ℕ, [], ◌==◌, ltb, length, false, not, none, ◌&&◌,
  if◌then◌else◌, some,
}
use kist_data_collector.Common.Text.{Text}
use kist_data_collector.Outcome.{Holds}
use kist_data_collector.Settings.{Yaml, from_yaml}
use kist_data_collector.Settings.Throws.{Returns, IsConfig, from_yaml-Returns}

-- Node 0 is the root, 1 the section under its one key of seven letters, 2 what is not there.
abbrev pub bare : Yaml
bare = record {
  Node = ℕ;
  at = λ n key. some (if n == 0 && length key == 7 then 1 else 2);
  defined = λ n. ltb n 2;
  is_sequence = λ n. false;
  items = λ n. [];
  as_int = λ n fallback. fallback;
  as_size = λ n fallback. fallback;
  as_bool = λ n fallback. fallback;
  as_text = λ n fallback. fallback;
}

abbrev starts_t : Text → Bool
starts_t [] = false
starts_t (c ∷ key) = c == b't'

-- A config with a `unitree` section and a task, which is no map: node 3, under the
-- key that starts with a t.
abbrev tasked : Yaml
tasked = record bare {
  at = λ n key.
      if n == 3
      then none
      else some (if n == 0 && length key == 7 then 1 else if n == 0 && starts_t key then 3 else 2);
  defined = λ n. not (n == 2);
}

others : (n : ℕ) → (n == 3) ≡ false → (key : Text) → Returns (tasked.at n key)
unfolding Holds
others n h key = rw (h) tt

tasked-IsConfig : IsConfig tasked 0
unfolding Holds
tasked-IsConfig = record {
  is_map = λ key. tt;
  unitree = λ m e d. others m (ground (arith, some_injective e));
  storage = λ m e d. others m (ground (arith, some_injective e));
  realsense_cameras = λ m e d. others m (ground (arith, some_injective e));
  lowstate = λ m e d. others m (ground (arith, some_injective e));
  dex3 = λ m e d. others m (ground (arith, some_injective e));
  uwb = λ m e d. others m (ground (arith, some_injective e));
  lowcmd = λ m e d. others m (ground (arith, some_injective e));
  arm_sdk = λ m e d. others m (ground (arith, some_injective e));
  dex3_cmd = λ m e d. others m (ground (arith, some_injective e));
  motion_token = λ m e d. others m (ground (arith, some_injective e));
  has_cameras = λ rs e cs k d. tt;
}

from_yaml-Returns_example : Returns (from_yaml tasked 0)
from_yaml-Returns_example = from_yaml-Returns tasked 0 tasked-IsConfig
