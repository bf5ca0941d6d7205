-- ===== src/Collector/Rates.antt =====
-- The rates that DataCollector::print_report (src/system/data_collector.cpp) prints for the UWB, over
-- the reports of a recording.
use kist_data_collector.Common.{
  ℕ, zero, suc, ◌+◌, ◌*◌, ◌≡◌, ◌<◌, refl, sym, ap, ◌∙◌, List, [], ◌∷◌, ◌++◌, length, length-append,
  Option, none, some, arith, u64, u64_mod,
}
use kist_data_collector.Common.Text.{text}
use kist_data_collector.Outcome.{Only, Only-bind, Only-any, Only-some, Only-get}
use kist_data_collector.Collector.{Parts, Collector, CamLast, Last}
use kist_data_collector.Collector.Report.{
  Line, line_of, report_one, report_cameras, report_streams, reported, print_report,
}
use kist_data_collector.Collector.Runs.{Moved}
use kist_data_collector.Collector.Summary.{held}

-- The rate of the line at a position of a report.
unfoldable pub rx_at : ℕ → List Line → ℕ
rx_at i [] = 0
rx_at zero (l ∷ ls) = l.rx
rx_at (suc i) (l ∷ ls) = rx_at i ls

rx_at-within : (xs ys : List Line) (i : ℕ) → i < length xs → rx_at i (xs ++ ys) ≡ rx_at i xs
unfolding rx_at
rx_at-within [] ys i h = absurd (omega (arith, h))
rx_at-within (x ∷ xs) ys zero h = refl
rx_at-within (x ∷ xs) ys (suc i) h = rx_at-within xs ys i (omega (arith, h))

rx_at-behind : (xs ys : List Line) → rx_at (length xs) (xs ++ ys) ≡ rx_at 0 ys
unfolding rx_at
rx_at-behind [] ys = refl
rx_at-behind (x ∷ xs) ys = rx_at-behind xs ys

-- The line behind `xs`, with more lines behind it.
rx_at-inside :
    (xs a b c d : List Line) (l : Line) (i : ℕ)
    → length xs ≡ i
    → rx_at i (xs ++ (l ∷ []) ++ a ++ b ++ c ++ d) ≡ l.rx
unfolding rx_at
rx_at-inside xs a b c d l i h =
    let inner = xs ++ (l ∷ []) in
    let short : i < length inner = omega (arith, h, length-append xs (l ∷ [])) in
    rx_at-within (inner ++ a ++ b ++ c) d i (
      omega (
        arith,
        short,
        length-append inner a,
        length-append (inner ++ a) b,
        length-append (inner ++ a ++ b) c,
      ))
    ∙ rx_at-within (inner ++ a ++ b) c i
        (omega (arith, short, length-append inner a, length-append (inner ++ a) b))
    ∙ rx_at-within (inner ++ a) b i (omega (arith, short, length-append inner a))
    ∙ rx_at-within inner a i short
    ∙ ap (λ n. rx_at n inner) (sym h)
    ∙ rx_at-behind xs (l ∷ [])

module _ (P : Parts) where
  -- The UWB's line stands behind two for each camera and that of the low state.
  abbrev rx_of_uwb : Option P.Stream → Collector P → List Line → ℕ
  rx_of_uwb none c ls = 0
  rx_of_uwb (some s) c ls = rx_at (2 * length c.cameras + held c.lowstate) ls

  -- The rate that a report of a collector shows for the UWB.
  abbrev pub uwb_rate : Collector P → List Line → ℕ
  uwb_rate c ls = rx_of_uwb c.uwb c ls

  -- The received counters are words.
  abbrev pub AreWords : Type 0
  AreWords = (s : P.Stream) → (P.stats s).received < u64_mod

  -- Reports of one recording, with the sum of the rates that they show for the UWB: between them the
  -- recorders receive and write, and nothing else changes.
  pub data Reports (c : Collector P) : ℕ → Collector P → Type 0 where
    begin : Reports c 0 c
    goes_on : {n : ℕ} {d d' : Collector P} → Moved P d d' → Reports c n d → Reports c n d'
    report :
        {n : ℕ} {d d' : Collector P} {ls : List Line}
        → print_report P d ≡ some (ls, d')
        → Reports c n d
        → Reports c (n + uwb_rate d ls) d'

  length-report_one :
      (o : Option P.Stream) (l : Last) → length (report_one P (text "lowstate") o l).0 ≡ held o
  length-report_one none l = refl
  length-report_one (some s) l = refl

  length-report_cameras :
      (cams : List P.Camera) (ls : List CamLast)
      → Only
          (λ (r : List Line × List CamLast). length r.0 ≡ 2 * length cams)
          (report_cameras P cams ls)
  unfolding report_cameras Only
  length-report_cameras [] ls = refl
  length-report_cameras (cam ∷ cams) [] = tt
  length-report_cameras (cam ∷ cams) (l ∷ ls) =
      Only-bind (λ (r : List Line × List CamLast). length r.0 ≡ 2 * length cams)
        (λ (r : List Line × List CamLast). length r.0 ≡ 2 * length (cam ∷ cams)) _ _
        (length-report_cameras cams ls) λ r h. omega (arith, h)

  -- What the UWB has received, or `n` if there is none.
  abbrev rx_or : ℕ → Option P.Stream → ℕ
  rx_or n none = n
  rx_or n (some s) = (P.stats s).received

  -- One report moves the UWB's window by what it shows, to what the UWB has received.
  abbrev Moves : Collector P → List Line × Collector P → Type 0
  Moves c r =
      (u64 (c.last_uw.rx + uwb_rate c r.0) ≡ u64 r.1.last_uw.rx)
      × (r.1.last_uw.rx ≡ rx_or c.last_uw.rx c.uwb)

  reported-Moves :
      (words : AreWords) (c : Collector P) (o : Option P.Stream) (cams : List Line × List CamLast)
      (hands body hand : List Line × List Last)
      → c.uwb ≡ o
      → length cams.0 ≡ 2 * length c.cameras
      → c.last_uw.rx < u64_mod
      → Moves c (reported P c cams hands body hand)
        × ((reported P c cams hands body hand).1.last_uw.rx < u64_mod)
  unfolding reported line_of
  reported-Moves words c none cams hands body hand e h w = rw (e) ((omega arith, refl), w)
  reported-Moves words c (some s) cams hands body hand e h w =
      let ls : List Line = (report_one P (text "lowstate") c.lowstate c.last_ls).0 in
      let l : Line = line_of (text "uwb") c.last_uw (P.stats s) in
      let rate =
        rx_at-inside (cams.0 ++ ls) hands.0 body.0 hand.0
          (report_one P (text "motion_token") c.motion_token c.last_mt).0 l
          (2 * length c.cameras + held c.lowstate)
          (length-append cams.0 ls ∙ omega (arith, h, length-report_one c.lowstate c.last_ls)) in
      rw (e, rate) ((omega (arith, words s, w), refl), words s)

  print_report-Moves :
      (words : AreWords) (c : Collector P)
      → c.last_uw.rx < u64_mod
      → Only
          (λ (r : List Line × Collector P). Moves c r × (r.1.last_uw.rx < u64_mod))
          (print_report P c)
  unfolding print_report
  print_report-Moves words c w =
      let Q : List Line × Collector P → Type 0 = λ r. Moves c r × (r.1.last_uw.rx < u64_mod) in
      Only-bind (λ (r : List Line × List CamLast). length r.0 ≡ 2 * length c.cameras) Q _
        (report_cameras P c.cameras c.last_cam) (length-report_cameras c.cameras c.last_cam)
        λ cams h. Only-any Q _ (report_streams P (text "hand_") c.hands c.last_hand) λ hands.
          Only-any Q _ (report_streams P [] c.body_cmds c.last_body_cmd) λ body.
            Only-any Q _ (report_streams P (text "cmd_") c.hand_cmds c.last_hand_cmd)
              λ hand. Only-some Q _ (reported-Moves words c c.uwb cams hands body hand refl h w)

  total :
      {c d : Collector P} {n : ℕ}
      → AreWords
      → c.last_uw.rx < u64_mod
      → Reports c n d
      → (u64 (c.last_uw.rx + n) ≡ u64 d.last_uw.rx) × (d.last_uw.rx < u64_mod)
  total words w begin = (omega arith, w)
  total words w (goes_on m l) =
      let (sum, word) = total words w l in
      let same = ap (λ (x : Collector P). x.last_uw.rx) m.same in
      (omega (arith, sum, same), omega (arith, word, same))
  total words w (report {d = d} e l) =
      let (sum, word) = total words w l in
      let ((moved, _), word') =
        Only-get (λ (r : List Line × Collector P). Moves d r × (r.1.last_uw.rx < u64_mod)) _
          (print_report-Moves words d word) e in
      (omega (arith, sum, moved), word')

  -- Over the reports of a recording, between which its recorders receive and write and nothing else
  -- changes, the rates that print_report shows for the UWB add up, modulo 2^64, to what the UWB had
  -- received at the last of them, counted from the window before the first; without a UWB, they leave
  -- that window as it is. This holds for every collector whose counters are 64-bit words.
  pub Reports-total :
      {c d d' : Collector P} {n : ℕ} {ls : List Line}
      → AreWords
      → c.last_uw.rx < u64_mod
      → Reports c n d
      → print_report P d ≡ some (ls, d')
      → u64 (c.last_uw.rx + (n + uwb_rate d ls)) ≡ u64 (rx_or d.last_uw.rx d.uwb)
  Reports-total {c} {d} {d'} words w l e =
      let (sum, word) = total words w l in
      let ((moved, window), _) =
        Only-get (λ (r : List Line × Collector P). Moves d r × (r.1.last_uw.rx < u64_mod)) _
          (print_report-Moves words d word) e in
      omega (arith, sum, moved, window)
