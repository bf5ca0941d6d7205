-- ===== src/Collector/Windows.antt =====
-- The windows between the reports of a DataCollector (src/system/data_collector.cpp): which
-- windows outlive a recording.
use kist_data_collector.Common.{◌≡◌, refl, ◌∙◌, Bool, true, false, if-holds, if◌then◌else◌}
use kist_data_collector.Common.Text.{Text}
use kist_data_collector.Common.Int.{ℤ}
use kist_data_collector.Session.{MetaWrite, SessionInfo, is_empty}
use kist_data_collector.Settings.{Settings}
use kist_data_collector.Collector.{Parts, Collector}
use kist_data_collector.Collector.Start.{
  Scene, start, start_in, finish_start, start_recorders, announce, holds_nothing, nothing_enabled,
}
use kist_data_collector.Collector.Stop.{stop}

module _ (P : Parts) where
  -- The windows of the three single streams are those of another collector.
  pub record SameWindows (c c' : Collector P) : Type 0 where
    pub last_ls : c'.last_ls ≡ c.last_ls
    pub last_uw : c'.last_uw ≡ c.last_uw
    pub last_mt : c'.last_mt ≡ c.last_mt

  if-SameWindows :
      {c : Collector P} (b : Bool) (x y : Collector P × Bool)
      → (b ≡ true → SameWindows c x.0)
      → (b ≡ false → SameWindows c y.0)
      → SameWindows c (if b then x else y).0
  if-SameWindows {c} = if-holds (λ (p : Collector P × Bool). SameWindows c p.0)

  finish_windows :
      (e : Scene) (session : SessionInfo) (s : Settings) (meta : Text) (c : Collector P)
      → SameWindows c
          (finish_start P e meta
            (start_recorders P s session.dir (record c { session = session }))).0
  unfolding announce start_recorders
  finish_windows e session s meta c =
      if-SameWindows (holds_nothing P _) _ _
        (λ _. record { last_ls = refl; last_uw = refl; last_mt = refl })
        (λ _. record { last_ls = refl; last_uw = refl; last_mt = refl })

  start_in_windows :
      (e : Scene) (session : SessionInfo) (s : Settings) (c : Collector P)
      → SameWindows c (start_in P e session s c).0
  start_in_windows e session s c =
      if-SameWindows (is_empty session.dir) _ _
        (λ _. record { last_ls = refl; last_uw = refl; last_mt = refl })
        (λ _. finish_windows e session s _ c)

  start_windows : (e : Scene) (s : Settings) (c : Collector P) → SameWindows c (start P e s c).0
  unfolding start
  start_windows e s c =
      if-SameWindows c.running _ _ (λ _. record { last_ls = refl; last_uw = refl; last_mt = refl })
        (λ _.
          if-SameWindows (nothing_enabled s) _ _
            (λ _. record { last_ls = refl; last_uw = refl; last_mt = refl })
            (λ _.
              let k = start_in_windows e _ s (record c { settings = s }) in
              record { last_ls = k.last_ls; last_uw = k.last_uw; last_mt = k.last_mt }))

  stop_windows :
      (disk : MetaWrite) (utc : Text) (ns : ℤ) (c : Collector P)
      → SameWindows c (stop P disk utc ns c)
  unfolding stop
  stop_windows disk utc ns c =
      if-holds (SameWindows c) c.running _ c
        (λ _. record { last_ls = refl; last_uw = refl; last_mt = refl })
        (λ _. record { last_ls = refl; last_uw = refl; last_mt = refl })

  -- A stop and the next start leave the windows of the low state, the UWB and the motion tokens as
  -- the recording before left them.
  pub restart_windows :
      (e : Scene) (s : Settings) (disk : MetaWrite) (utc : Text) (ns : ℤ) (c : Collector P)
      → SameWindows c (start P e s (stop P disk utc ns c)).0
  restart_windows e s disk utc ns c =
      let a = stop_windows disk utc ns c in
      let b = start_windows e s (stop P disk utc ns c) in
      record {
        last_ls = b.last_ls ∙ a.last_ls;
        last_uw = b.last_uw ∙ a.last_uw;
        last_mt = b.last_mt ∙ a.last_mt;
      }
