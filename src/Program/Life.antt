-- ===== src/Program/Life.antt =====
-- What holds of every run of the collector's program (src/main.cpp).
use kist_data_collector.Common.{
  ℕ, ◌+◌, ◌-◌, ◌≤◌, ◌≡◌, refl, sym, ◌∙◌, List, [], ◌∷◌, Bool, true, false, ◌&&◌, ◌||◌, Option, none,
  some, if◌then◌else◌, if-holds, ◌==◌, ltb, arith,
}
use kist_data_collector.Common.Text.{Text, text}
use kist_data_collector.Common.Int.{ℤ}
use kist_data_collector.Outcome.{Holds, Holds-bind}
use kist_data_collector.Session.{MetaWrite}
use kist_data_collector.Settings.{Yaml, Settings, from_yaml}
use kist_data_collector.Collector.{Parts, Collector}
use kist_data_collector.Collector.Stop.{stop, write_result}
use kist_data_collector.Collector.Runs.{Moved, Reach, Reach-print_report}
use kist_data_collector.Program.{
  Terminal, read_label, prompt_result, Look, second, Watch, report_loop, Machine, Exit, exit_of,
  record_session, start_session, apply_dds_config, main,
}

-- A key that is a label.
abbrev is_key : ℕ → Bool
is_key c = (c == b's' || c == b'S') || (c == b'f' || c == b'F')

-- Each report comes a second or more behind the one before it.
abbrev pub Spaced : ℕ → List ℕ → Type 0
Spaced last [] = Unit {0}
Spaced last (t ∷ ts) = (last + second ≤ t) × Spaced t ts

module _ (P : Parts) where
  -- The recorders run on, and nothing else changes.
  abbrev pub AllMove : List (Look P) → Type 0
  AllMove [] = Unit {0}
  AllMove (l ∷ looks) = ((c : Collector P) → Moved P c (l.progress c)) × AllMove looks

  -- One of the looks sees the signal.
  abbrev pub saw_stop : List (Look P) → Bool
  saw_stop [] = false
  saw_stop (l ∷ looks) = l.stop_seen || saw_stop looks

  abbrev pub Watched : ℕ → List (Look P) → Watch P → Type 0
  Watched window looks w =
      Spaced window w.reports × Reach P w.collector × (w.ended ≡ saw_stop looks)

  -- From a collector that the program can come to, the report loop never reads behind the end of a
  -- vector, whenever it looks and whatever the recorders do: it comes to such a collector, its
  -- reports come a second or more apart, and it has ended exactly if it saw the signal.
  pub report_loop-Spaced :
      (window : ℕ) (looks : List (Look P)) (c : Collector P)
      → AllMove looks
      → Reach P c
      → Holds (Watched window looks) (report_loop P window looks c)
  unfolding report_loop Holds
  report_loop-Spaced window [] c m l = (tt, l, refl)
  report_loop-Spaced window (look ∷ looks) c (m, ms) l =
      let moved : Reach P (look.progress c) = Reach.moves (m c) l in
      if-holds (Holds Q) look.stop_seen _ _ (λ seen. (tt, moved, rw (seen) refl))
        λ unseen.
          if-holds (Holds Q) (ltb (look.now - window) second) _ _
            (λ _. rw (unseen) (report_loop-Spaced window looks (look.progress c) ms moved))
            λ late.
              let (r, same) = Reach-print_report P moved in
              rw (same) (
                Holds-bind (Watched look.now looks) Q _ _
                  (report_loop-Spaced look.now looks r.1 ms (Reach.reports same moved))
                  λ q h. ((ground (arith, late), h.0), h.1, rw (unseen) h.2))
    where
      Q : Watch P → Type 0
      Q = Watched window (look ∷ looks)

  stop-running :
      (disk : MetaWrite) (utc : Text) (ns : ℤ) (c : Collector P)
      → (stop P disk utc ns c).running ≡ false
  unfolding stop
  stop-running disk utc ns c =
      if-holds (λ (d : Collector P). d.running ≡ false) c.running _ _ (λ _. refl) (λ h. h)

  write_result-running :
      (disk : MetaWrite) (result : Text) (c : Collector P)
      → (write_result P disk result c).running ≡ c.running
  unfolding write_result
  write_result-running disk result c = refl

module _ (Y : Yaml) (P : Parts) (e : Machine Y P) (m : AllMove P e.looks) where
  Ends : Exit P → Type 0
  Ends x =
      Spaced e.window x.reports
      × (x.code ≡ none → saw_stop P e.looks ≡ false)
      × (x.code ≡ some 0 → (saw_stop P e.looks ≡ true) × (x.collector.running ≡ false))

  exit_Ends : (w : Watch P) → Watched P e.window e.looks w → Ends (exit_of Y P e w)
  unfolding Ends
  exit_Ends w (spaced, _, seen) =
      if-holds Ends w.ended _ _
        (λ on. (
          spaced,
          λ h. absurd (ground (arith, h)),
          λ _. (
            sym seen ∙ on,
            if-holds (λ (d : Collector P). d.running ≡ false) e.interrupted _ _
                (λ _.
                  write_result-running P _ _ _
                  ∙ stop-running P e.end_write e.ended_utc e.ended_ns w.collector)
                (λ _. stop-running P e.end_write e.ended_utc e.ended_ns w.collector),
          ),
        ))
        λ off. (spaced, λ _. sym seen ∙ off, λ h. absurd (ground (arith, h)))

  session_Ends : (p : Collector P × Bool) → Reach P p.0 → Holds Ends (record_session Y P e p)
  unfolding Ends Holds
  session_Ends (c, ok) l =
      if-holds (Holds Ends) ok _ _
        (λ _.
          Holds-bind (Watched P e.window e.looks) Ends _ _
            (report_loop-Spaced P e.window e.looks c m l) exit_Ends)
        λ _. (tt, λ h. absurd (ground (arith, h)), λ h. absurd (ground (arith, h)))

  -- If the config file can be read, yaml-cpp throws nothing, and between the looks at the signal nothing
  -- changes in the collector but what its recorders have received and written, then whenever and
  -- however often the loop looks: no exception or read behind the end of a vector ends the program;
  -- its reports come a second or more apart; while it still runs no look has seen the signal; and it
  -- has ended with exit code 0 only if one has, and then the collector has been stopped.
  pub main-ends :
      (root : Y.Node) (s : Settings) (uri : Option Text)
      → e.root ≡ some root
      → from_yaml Y root ≡ some s
      → apply_dds_config Y e.dds root ≡ some uri
      → Holds
          (λ (x : Exit P).
            Spaced e.window x.reports
            × (x.code ≡ none → saw_stop P e.looks ≡ false)
            × (x.code ≡ some 0 → (saw_stop P e.looks ≡ true) × (x.collector.running ≡ false)))
          (main Y P e)
  unfolding main Ends Holds
  main-ends root s uri r f u = rw (r, f, u) (session uri)
    where
      session : (o : Option Text) → Holds Ends (start_session Y P e s o)
      session none = (tt, λ h. absurd (ground (arith, h)), λ h. absurd (ground (arith, h)))
      session (some uri) =
          session_Ends _ (Reach.starts e.scene (record s { dds_uri = uri }) Reach.made)

-- A program that is ended by another signal than SIGINT never looks at the terminal.
pub main-sigterm :
    (Y : Yaml) (P : Parts) (e : Machine Y P) (terminal : Terminal)
    → e.interrupted ≡ false
    → main Y P (record e { terminal = terminal }) ≡ main Y P e
unfolding main
main-sigterm Y P e terminal h = rw (h) refl

-- The first key that is a label.
abbrev first_label : List ℕ → Option ℕ
first_label [] = none
first_label (c ∷ keys) = let later = first_label keys in if is_key c then some c else later

abbrev label_of : Option ℕ → Text
label_of none = []
label_of (some c) = if c == b's' || c == b'S' then text "success" else text "fail"

read_label-first : (keys : List ℕ) → read_label keys ≡ label_of (first_label keys)
unfolding read_label
read_label-first [] = refl
read_label-first (c ∷ keys) = ground (arith, read_label-first keys)

-- The episode's label is that of the first key that is one of s, S, f and F, if stdin is a terminal
-- whose attributes can be read; otherwise, and if there is no such key before the end of the input or
-- a second interrupt, it is empty.
pub prompt_result-first :
    (e : Terminal)
    → prompt_result e ≡ (if e.is_tty && e.has_attributes then label_of (first_label e.keys) else [])
unfolding prompt_result
prompt_result-first e = ground (arith, read_label-first e.keys)
