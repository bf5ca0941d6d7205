-- ===== src/Settings/Throws.antt =====
-- When `from_yaml` (src/system/data_collector.cpp) throws.
use kist_data_collector.Common.{
  ℕ, ◌≡◌, refl, List, [], ◌∷◌, ◌++◌, Bool, true, ◌&&◌, Option, none, some, if-holds,
}
use kist_data_collector.Common.Text.{Text, text}
use kist_data_collector.Common.Int.{ℤ}
use kist_data_collector.Outcome.{◌>>=◌, Holds}
use kist_data_collector.Settings.{
  Yaml, Settings, default_settings, from_yaml, camera_names, camera_name, name_of, camera_section,
  stream_section, text_under, int_under,
}

-- There is a result.
abbrev pub Returns {ℓ} : {A : Type ℓ} → Option A → Type 0
Returns o = Holds (λ _. Unit {0}) o

bind-Returns {ℓ κ} :
    {A : Type ℓ} {B : Type κ} (o : Option A) (f : A → Option B)
    → Returns o
    → ((a : A) → o ≡ some a → Returns (f a))
    → Returns (o >>= f)
unfolding Holds
bind-Returns none f h k = elim h [ ]
bind-Returns (some a) f h k = k a refl

module _ (Y : Yaml) where
  open Y use {Node, at, defined, is_sequence, items, as_int, as_size, as_bool, as_text}

  -- yaml-cpp: `operator[]` with a key throws on no map.
  abbrev pub IsMap : Node → Type 0
  IsMap n = (key : Text) → Returns (at n key)

  abbrev pub AreMaps : List Node → Type 0
  AreMaps [] = Unit {0}
  AreMaps (n ∷ ns) = IsMap n × AreMaps ns

  name_of-Returns : (cam : Node) → IsMap cam → Returns (name_of Y cam)
  unfolding Holds
  name_of-Returns cam m = bind-Returns _ _ (m (text "name")) (λ a e. tt)

  camera_name-Returns : (cam : Node) → IsMap cam → Returns (camera_name Y cam)
  unfolding Holds
  camera_name-Returns cam m =
      bind-Returns _ _ (m (text "enabled")) (λ a e.
        if-holds Returns (as_bool a true) _ (some []) (λ _. name_of-Returns cam m) (λ _. tt))

  camera_names-Returns :
      (cams : List Node) (names : List Text) → AreMaps cams → Returns (camera_names Y cams names)
  unfolding Holds camera_names
  camera_names-Returns [] names m = tt
  camera_names-Returns (cam ∷ cams) names (m, ms) =
      bind-Returns _ _ (camera_name-Returns cam m)
        (λ name e. camera_names-Returns cams (names ++ name) ms)

  -- Under the key stands a map, if anything stands there.
  abbrev pub IsSection : Node → Text → Type 0
  IsSection root key = (m : Node) → at root key ≡ some m → defined m ≡ true → IsMap m

  stream_section-Returns :
      (root : Node) (key : Text) (enabled : Bool) (capacity : ℕ)
      → IsMap root
      → IsSection root key
      → Returns (stream_section Y root key enabled capacity)
  unfolding Holds stream_section
  stream_section-Returns root key enabled capacity r h = bind-Returns _ _ (r key) (λ m e.
      if-holds Returns (defined m) _ _
        (λ d.
          bind-Returns _ _ (h m e d (text "enabled"))
            (λ a _. bind-Returns _ _ (h m e d (text "queue_capacity")) (λ b _. tt)))
        (λ _. tt))

  text_under-Returns :
      (m : Node) (key fallback : Text)
      → (defined m ≡ true → IsMap m)
      → Returns (text_under Y m key fallback)
  unfolding Holds
  text_under-Returns m key fallback h =
      if-holds Returns (defined m) _ _ (λ d. bind-Returns _ _ (h d key) (λ a _. tt)) (λ _. tt)

  int_under-Returns :
      (m : Node) (key : Text) (fallback : ℤ)
      → (defined m ≡ true → IsMap m)
      → Returns (int_under Y m key fallback)
  unfolding Holds
  int_under-Returns m key fallback h =
      if-holds Returns (defined m) _ _ (λ d. bind-Returns _ _ (h d key) (λ a _. tt)) (λ _. tt)

  -- Each entry of a camera list is a map.
  abbrev pub HasCameras : Node → Type 0
  HasCameras rs =
      (cs : Node)
      → at rs (text "cameras") ≡ some cs
      → (defined cs && is_sequence cs) ≡ true
      → AreMaps (items cs)

  camera_section-Returns :
      (s : Settings) (rs : Node) → IsMap rs → HasCameras rs → Returns (camera_section Y s rs)
  unfolding Holds
  camera_section-Returns s rs m h = bind-Returns _ _ (m (text "queue_capacity")) (λ a _.
      bind-Returns _ _ (m (text "reliable")) (λ b _.
        bind-Returns _ _
          (bind-Returns _ _ (m (text "enabled")) (λ e _.
            if-holds Returns (as_bool e true) _ (some [])
              (λ _. bind-Returns _ _ (m (text "cameras")) (λ cs k.
                if-holds Returns (defined cs && is_sequence cs) _ (some [])
                  (λ d. camera_names-Returns (items cs) [] (h cs k d)) (λ _. tt)))
              (λ _. tt)))
          (λ c _. tt)))

  -- What the code relies on: the root is a map, under each section's key stands a map if anything,
  -- and each entry of the camera list is a map. Under `task` may stand anything.
  pub record IsConfig (root : Node) : Type 0 where
    pub is_map : IsMap root
    pub unitree : IsSection root (text "unitree")
    pub storage : IsSection root (text "storage")
    pub realsense_cameras : IsSection root (text "realsense_cameras")
    pub lowstate : IsSection root (text "lowstate")
    pub dex3 : IsSection root (text "dex3")
    pub uwb : IsSection root (text "uwb")
    pub lowcmd : IsSection root (text "lowcmd")
    pub arm_sdk : IsSection root (text "arm_sdk")
    pub dex3_cmd : IsSection root (text "dex3_cmd")
    pub motion_token : IsSection root (text "motion_token")
    pub has_cameras : (rs : Node) → at root (text "realsense_cameras") ≡ some rs → HasCameras rs

  -- A config whose root is a map, whose ten sections are maps where they are there, and whose camera
  -- entries are maps, is read without an exception, whichever sections and keys it leaves out and
  -- whatever stands under its other keys, such as `task`.
  pub from_yaml-Returns : (root : Node) → IsConfig root → Returns (from_yaml Y root)
  unfolding Holds from_yaml
  from_yaml-Returns root v =
      let m = v.is_map in
      let stream = λ (key : Text) (b : Bool) (n : ℕ) (h : IsSection root key).
        stream_section-Returns root key b n m h in
      bind-Returns _ _ (m (text "unitree")) (λ unitree eu.
        bind-Returns _ _ (int_under-Returns unitree _ _ (v.unitree unitree eu)) (λ _ _.
          bind-Returns _ _ (m (text "storage")) (λ storage es.
            bind-Returns _ _ (text_under-Returns storage _ _ (v.storage storage es)) (λ _ _.
              bind-Returns _ _ (m (text "realsense_cameras")) (λ rs er.
                bind-Returns _ _
                  (if-holds Returns (defined rs) _ (some default_settings)
                    (λ d.
                      camera_section-Returns default_settings rs (v.realsense_cameras rs er d)
                        (v.has_cameras rs er))
                    (λ _. tt))
                  (λ _ _. bind-Returns _ _ (stream (text "lowstate") _ _ v.lowstate) (λ _ _.
                    bind-Returns _ _ (stream (text "dex3") _ _ v.dex3) (λ _ _.
                      bind-Returns _ _ (stream (text "uwb") _ _ v.uwb) (λ _ _.
                        bind-Returns _ _ (stream (text "lowcmd") _ _ v.lowcmd) (λ _ _.
                          bind-Returns _ _ (stream (text "arm_sdk") _ _ v.arm_sdk) (λ _ _.
                            bind-Returns _ _ (stream (text "dex3_cmd") _ _ v.dex3_cmd) (λ _ _.
                              bind-Returns _ _ (stream (text "motion_token") _ _ v.motion_token)
                                (λ _ _. bind-Returns _ _ (m (text "task")) (λ _ _. tt))))))))))))))
