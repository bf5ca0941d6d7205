-- ===== src/Program/Silent.antt =====
-- What the program (src/main.cpp) shows of the writing of meta.yaml (src/common/session.cpp).
use kist_data_collector.Common.{
  ℕ, ◌≡◌, refl, List, Bool, true, false, Option, none, some, Bool-cases, inl, inr,
}
use kist_data_collector.Common.Text.{Text}
use kist_data_collector.Outcome.{◌>>=◌}
use kist_data_collector.Session.{MetaWrite}
use kist_data_collector.Settings.{Yaml, Settings, from_yaml}
use kist_data_collector.Collector.{Parts, Collector}
use kist_data_collector.Program.{
  Watch, report_loop, Machine, Exit, exit_of, record_session, start_session, apply_dds_config, main,
}

-- Calls that show the same for each value come to the same behind a call.
bind_same {ℓ} :
    {A : Type 0} {B : Type ℓ} {C : Type 0} (f : B → Option C) (o : Option A) (g g' : A → Option B)
    → ((a : A) → (g a >>= f) ≡ (g' a >>= f))
    → ((o >>= g) >>= f) ≡ ((o >>= g') >>= f)
bind_same f none g g' h = refl
bind_same f (some a) g g' h = h a

-- What the caller of the program sees: the exit code, and the times of the reports.
abbrev pub seen : {P : Parts} → Exit P → Option (Option ℕ × List ℕ)
seen x = some (x.code, x.reports)

module _ (Y : Yaml) (P : Parts) (e : Machine Y P) (end_write label_write : MetaWrite) where
  -- The same run, but for what the file system does with the last two writes to meta.yaml.
  abbrev pub rewritten : Machine Y P
  rewritten = record e { end_write = end_write; label_write = label_write }

  exit_of-seen : (w : Watch P) → seen (exit_of Y P rewritten w) ≡ seen (exit_of Y P e w)
  exit_of-seen w = elim (Bool-cases w.ended) [ inl h ↦ rw (h) refl | inr h ↦ rw (h) refl ]

  record_session-seen :
      (p : Collector P × Bool)
      → (record_session Y P rewritten p >>= seen) ≡ (record_session Y P e p >>= seen)
  record_session-seen (c, true) = bind_same seen (report_loop P e.window e.looks c) _ _ exit_of-seen
  record_session-seen (c, false) = refl

  start_session-seen :
      (s : Settings) (uri : Option Text)
      → (start_session Y P rewritten s uri >>= seen) ≡ (start_session Y P e s uri >>= seen)
  start_session-seen s none = refl
  start_session-seen s (some uri) = record_session-seen _

  -- Whether the summary and the label reach meta.yaml, in part or not at all, shows in no run of the
  -- program: not in the exit code, not in the times of the reports, and not in whether it ends by an
  -- exception.
  pub main-silent : (main Y P rewritten >>= seen) ≡ (main Y P e >>= seen)
  unfolding main
  main-silent = bind_same seen e.root _ _ λ root.
      bind_same seen (from_yaml Y root) _ _
        λ s. bind_same seen (apply_dds_config Y e.dds root) _ _ λ uri. start_session-seen s uri
