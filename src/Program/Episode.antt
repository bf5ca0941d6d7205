-- ===== src/Program/Episode.antt =====
-- What a run of the collector's program (src/main.cpp) leaves in meta.yaml (src/common/session.cpp).
use kist_data_collector.Common.{
  ℕ, ◌-◌, not, ◌==◌, ◌≡◌, refl, sym, ap, ◌∙◌, List, [], ◌∷◌, map, Bool, true, false, ◌||◌, some,
  if◌then◌else◌, if-holds, ltb, arith, Bool-cases, inl, inr, Every,
}
use kist_data_collector.Common.Text.{Text, text}
use kist_data_collector.Common.Lacks.{Lacks, lacks-Lacks}
use kist_data_collector.Outcome.{Only, Only-bind, Only-any, Only-some, Only-weaken, Only-get}
use kist_data_collector.Session.{
  SessionInfo, is_empty, session_create, session_write_meta, session_finalize_meta,
  session_append_result,
}
use kist_data_collector.Session.Meta.{episode_meta}
use kist_data_collector.Settings.{Yaml, Settings, from_yaml}
use kist_data_collector.Collector.{Parts, Collector, new_collector}
use kist_data_collector.Collector.Start.{Scene, start, start_recorders, announce, started_cameras}
use kist_data_collector.Collector.Report.{
  Line, report_cameras, report_streams, print_report, reported,
}
use kist_data_collector.Collector.Stop.{stop, write_result, summary_of}
use kist_data_collector.Collector.Plain.{
  NamedParts, IsPlain, new_collector-IsPlain, Moved-IsPlain, start-IsPlain,
}
use kist_data_collector.Collector.Runs.{Moved, Reach, Reach-print_report}
use kist_data_collector.Program.{
  Terminal, read_label, prompt_result, Look, second, Watch, report_loop, Machine, Exit, exit_of,
  label_episode, record_session, apply_dds_config, main,
}
use kist_data_collector.Program.Life.{AllMove}

module _ (P : Parts) where
  -- The session and meta.yaml are as before, and `running_` is; and the recorders' names are single
  -- lines if they were.
  abbrev Same : Collector P → Collector P → Type 0
  Same c c' =
      (c'.session ≡ c.session)
      × (c'.meta ≡ c.meta)
      × (c'.running ≡ c.running)
      × (IsPlain P c → IsPlain P c')

  Same-trans : (c d e : Collector P) → Same c d → Same d e → Same c e
  Same-trans c d e (a, b, r, p) (a', b', r', p') = (a' ∙ a, b' ∙ b, r' ∙ r, λ v. p' (p v))

  Moved-Same : {c c' : Collector P} → Moved P c c' → Same c c'
  Moved-Same m = (
    ap Collector.session m.same,
    ap Collector.meta m.same,
    ap Collector.running m.same,
    Moved-IsPlain P m,
  )

  print_report-Same :
      (c : Collector P) → Only (λ (r : List Line × Collector P). Same c r.1) (print_report P c)
  unfolding print_report reported
  print_report-Same c =
      let Q : List Line × Collector P → Type 0 = λ r. Same c r.1 in
      Only-any Q _ (report_cameras P c.cameras c.last_cam) λ cams.
        Only-any Q _ (report_streams P (text "hand_") c.hands c.last_hand) λ hands.
          Only-any Q _ (report_streams P [] c.body_cmds c.last_body_cmd) λ body.
            Only-any Q _ (report_streams P (text "cmd_") c.hand_cmds c.last_hand_cmd) λ hand.
              Only-some Q (reported P c cams hands body hand) (
                refl,
                refl,
                refl,
                λ v. record {
                  cameras = v.cameras;
                  hands = v.hands;
                  body_cmds = v.body_cmds;
                  hand_cmds = v.hand_cmds;
                },
              )

  -- What `start` leaves where it returns true.
  start-meta :
      (e : Scene) (s : Settings) (c : Collector P)
      → c.running ≡ false
      → (start P e s c).1 ≡ true
      → let session = session_create e.started_ns e.local_stamp e.created s.output_dir in
        (is_empty session.dir ≡ false)
        × ((start P e s c).0.session ≡ session)
        × ((start P e s c).0.meta
            ≡ session_write_meta e.meta_write e.found_meta e.started_utc session s.domain_id
                s.dds_uri
                (map (λ p. p.0) (started_cameras P s session.dir s.cameras))
                s.task)
        × ((start P e s c).0.running ≡ true)
  unfolding start start_recorders announce
  start-meta e s c off on = ground (arith, off, on)

  -- The report loop changes neither the session nor meta.yaml, and ends with a collector that the
  -- program can come to.
  report_loop-Same :
      (window : ℕ) (looks : List (Look P)) (c : Collector P)
      → AllMove P looks
      → Reach P c
      → Only
          (λ (r : Watch P). Same c r.collector × Reach P r.collector)
          (report_loop P window looks c)
  unfolding report_loop
  report_loop-Same window [] c m l = Only-some _ _ ((refl, refl, refl, λ v. v), l)
  report_loop-Same window (look ∷ looks) c (m, ms) l =
      let Q : Watch P → Type 0 = λ r. Same c r.collector × Reach P r.collector in
      let c' : Collector P = look.progress c in
      let moved : Reach P c' = Reach.moves (m c) l in
      if-holds (Only Q) look.stop_seen _ _ (λ _. Only-some Q _ (Moved-Same (m c), moved))
        λ _.
          if-holds (Only Q) (ltb (look.now - window) second) _ _
            (λ _.
              Only-weaken (λ (r : Watch P). Same c' r.collector × Reach P r.collector) Q
                (report_loop P window looks c')
                (λ r h. (Same-trans c c' r.collector (Moved-Same (m c)) h.0, h.1))
                (report_loop-Same window looks c' ms moved))
            λ _.
              let (r, same) = Reach-print_report P moved in
              let first =
                Only-get (λ (r : List Line × Collector P). Same c' r.1) (print_report P c')
                  (print_report-Same c') same in
              let so_far = Same-trans c c' r.1 (Moved-Same (m c)) first in
              rw (same) (
                Only-bind (λ (q : Watch P). Same r.1 q.collector × Reach P q.collector) Q _
                  (report_loop P look.now looks r.1)
                  (report_loop-Same look.now looks r.1 ms (Reach.reports same moved))
                  λ q h. Only-some Q _ (Same-trans c r.1 q.collector so_far h.0, h.1))

new_collector-running : (P : Parts) → (new_collector P).running ≡ false
unfolding new_collector
new_collector-running P = refl

read_label-Lacks : (keys : List ℕ) → Lacks 10 (read_label keys)
unfolding read_label
read_label-Lacks [] = tt
read_label-Lacks (c ∷ keys) =
    if-holds (Lacks 10) (c == b's' || c == b'S') _ _ (λ _. lacks-Lacks 10 (text "success") refl)
      λ _.
        if-holds (Lacks 10) (c == b'f' || c == b'F') _ _ (λ _. lacks-Lacks 10 (text "fail") refl)
          λ _. read_label-Lacks keys

prompt_result-Lacks : (e : Terminal) → Lacks 10 (prompt_result e)
unfolding prompt_result
prompt_result-Lacks e =
    if-holds (Lacks 10) (not e.is_tty) _ _ (λ _. tt)
      λ _. if-holds (Lacks 10) (not e.has_attributes) _ _ (λ _. tt) λ _. read_label-Lacks e.keys

module _ (Y : Yaml) (P : Parts) (e : Machine Y P) where
  -- The label that the operator gives.
  abbrev pub given_label : Text
  given_label = if e.interrupted then prompt_result e.terminal else []

  pub given_label-Lacks : Lacks 10 given_label
  given_label-Lacks =
      if-holds (Lacks 10) e.interrupted _ _ (λ _. prompt_result-Lacks e.terminal) λ _. tt

  abbrev pub session_of : Settings → SessionInfo
  session_of s = session_create e.scene.started_ns e.scene.local_stamp e.scene.created s.output_dir

  -- meta.yaml of a run that stopped the collector `c`.
  abbrev pub meta_of : Settings → Text → Collector P → Text
  meta_of s uri c =
      episode_meta e.scene.meta_write e.end_write e.label_write e.scene.found_meta
        e.scene.started_utc (session_of s) s.domain_id uri
        (map (λ p. p.0)
          (started_cameras P (record s { dds_uri = uri }) (session_of s).dir s.cameras))
        s.task e.ended_utc e.ended_ns (summary_of P c) given_label

  labelled-meta :
      (c : Collector P)
      → c.running ≡ true
      → (label_episode Y P e (stop P e.end_write e.ended_utc e.ended_ns c)).meta
        ≡ session_append_result e.label_write c.session given_label
            (session_finalize_meta e.end_write e.ended_utc e.ended_ns (summary_of P c) c.meta)
  unfolding stop write_result session_append_result
  labelled-meta c on = elim (Bool-cases e.interrupted) [
    | inl h ↦ rw (h, on) refl
    | inr h ↦ rw (h, on) refl
  ]

  -- The collector that was stopped, and what stands in meta.yaml behind `stop` and the label.
  abbrev Left : SessionInfo → Text → Exit P → Type 0
  Left session meta x =
      x.code ≡ some 0
      → (c : Collector P) × Reach P c
        × IsPlain P c
        × (x.collector.meta
            ≡ session_append_result e.label_write session given_label
                (session_finalize_meta e.end_write e.ended_utc e.ended_ns (summary_of P c) meta))

  exit_of-Left :
      (c : Collector P) (w : Watch P)
      → c.running ≡ true
      → Same P c w.collector
      → Reach P w.collector
      → IsPlain P c
      → Left c.session c.meta (exit_of Y P e w)
  exit_of-Left c w on (session, meta, running, plain) l v =
      let d : Collector P = w.collector in
      if-holds (Left c.session c.meta) w.ended _ _
        (λ _ _. (
          d,
          l,
          plain v,
          labelled-meta d (running ∙ on)
              ∙ ap
                  (λ s. session_append_result e.label_write s given_label (
                    session_finalize_meta e.end_write e.ended_utc e.ended_ns (summary_of P d)
                      d.meta))
                  session
              ∙ ap
                  (λ m.
                    session_append_result e.label_write c.session given_label
                      (session_finalize_meta e.end_write e.ended_utc e.ended_ns (summary_of P d) m))
                  meta,
        ))
        λ _ h. absurd (ground (arith, h))

  record_session-Left :
      (c : Collector P) (ok : Bool)
      → AllMove P e.looks
      → Reach P c
      → IsPlain P c
      → (ok ≡ true → c.running ≡ true)
      → Only (Left c.session c.meta) (record_session Y P e (c, ok))
  record_session-Left c false m l v on = Only-some _ _ λ h. absurd (ground (arith, h))
  record_session-Left c true m l v on =
      Only-bind (λ (r : Watch P). Same P c r.collector × Reach P r.collector)
        (Left c.session c.meta) _ (report_loop P e.window e.looks c)
        (report_loop-Same P e.window e.looks c m l)
        λ r h. Only-some _ _ (exit_of-Left c r (on refl) h.0 h.1 v)

  exit_zero :
      (c : Collector P) (ok : Bool) {x : Exit P}
      → record_session Y P e (c, ok) ≡ some x
      → x.code ≡ some 0
      → ok ≡ true
  exit_zero c true h z = refl
  exit_zero c false h z = absurd (ground (arith, h, z))

  main-record_session :
      (root : Y.Node) (s : Settings) (uri : Text)
      → e.root ≡ some root
      → from_yaml Y root ≡ some s
      → apply_dds_config Y e.dds root ≡ some (some uri)
      → main Y P e
        ≡ record_session Y P e (start P e.scene (record s { dds_uri = uri }) (new_collector P))
  unfolding main
  main-record_session root s uri r f u = rw (r, f, u) refl

  -- If the program ends with exit code 0, then its meta.yaml is the head that the settings call for,
  -- the summary of a collector that its run came to, and the operator's label; the session has a
  -- directory, and the names of the recorders are single lines if the cameras' are.
  pub main-meta :
      (root : Y.Node) (s : Settings) (uri : Text) {x : Exit P}
      → NamedParts P
      → Every (Lacks 10) s.cameras
      → e.root ≡ some root
      → from_yaml Y root ≡ some s
      → apply_dds_config Y e.dds root ≡ some (some uri)
      → AllMove P e.looks
      → main Y P e ≡ some x
      → x.code ≡ some 0
      → (is_empty (session_of s).dir ≡ false)
        × ((c : Collector P) × Reach P c × IsPlain P c × (x.collector.meta ≡ meta_of s uri c))
  main-meta root s uri {x} v names r f u m returned zero_code =
      let s' : Settings = record s { dds_uri = uri } in
      let p = start P e.scene s' (new_collector P) in
      let reached : Reach P p.0 = Reach.starts e.scene s' Reach.made in
      let recorded : record_session Y P e (p.0, p.1) ≡ some x =
        sym (main-record_session root s uri r f u) ∙ returned in
      let (dir, session, meta, running) =
        start-meta P e.scene s' (new_collector P) (new_collector-running P)
          (exit_zero p.0 p.1 recorded zero_code) in
      let (c, l, plain, left) =
        Only-get (Left p.0.session p.0.meta) (record_session Y P e (p.0, p.1))
          (record_session-Left p.0 p.1 m reached
            (start-IsPlain P v e.scene s' (new_collector P) names (new_collector-IsPlain P))
            (λ _. running))
          recorded zero_code in
      (
        dir,
        (
          c,
          l,
          plain,
          left
              ∙ ap
                  (λ t. session_append_result e.label_write t given_label (
                    session_finalize_meta e.end_write e.ended_utc e.ended_ns (summary_of P c)
                      p.0.meta))
                  session
              ∙ ap
                  (λ t.
                    session_append_result e.label_write (session_of s) given_label
                      (session_finalize_meta e.end_write e.ended_utc e.ended_ns (summary_of P c) t))
                  meta,
        ),
      )
