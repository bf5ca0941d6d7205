-- ===== src/Collector/Runs.antt =====
-- What holds of a DataCollector however its operations are called, while its recorders run on:
-- `print_report` reads within the `last_…` vectors, and `running_` says whether recorders are held.
use kist_data_collector.Common.{
  ◌≤◌, ◌≡◌, refl, sym, ap, ◌∙◌, subst, List, [], ◌∷◌, map, Bool, true, false, not, Option, some,
  length, arith, if◌then◌else◌, if-holds, some_injective,
}
use kist_data_collector.Common.Text.{Text, text}
use kist_data_collector.Common.Int.{ℤ}
use kist_data_collector.Session.{MetaWrite, SessionInfo, is_empty}
use kist_data_collector.Settings.{Settings}
use kist_data_collector.Outcome.{◌>>=◌}
use kist_data_collector.Collector.{Parts, Collector, new_collector, no_last}
use kist_data_collector.Collector.Start.{
  Scene, start, start_in, finish_start, start_recorders, announce, holds_nothing, is_nil, is_none,
  zeros_for, no_cam_last, nothing_enabled,
}
use kist_data_collector.Collector.Fits.{Fits-get, report_cameras-Fits, report_streams-Fits}
use kist_data_collector.Collector.Report.{Line, print_report, reported}
use kist_data_collector.Collector.Stop.{stop, write_result}

-- Only the recorders have changed, by what they received and wrote: not their names.
pub record Moved (P : Parts) (c c' : Collector P) : Type 0 where
  pub same : c' ≡ record c {
    cameras = c'.cameras;
    lowstate = c'.lowstate;
    hands = c'.hands;
    uwb = c'.uwb;
    body_cmds = c'.body_cmds;
    hand_cmds = c'.hand_cmds;
    motion_token = c'.motion_token;
  }
  pub cameras : length c'.cameras ≡ length c.cameras
  pub lowstate : is_none c'.lowstate ≡ is_none c.lowstate
  pub hands : length c'.hands ≡ length c.hands
  pub uwb : is_none c'.uwb ≡ is_none c.uwb
  pub body_cmds : length c'.body_cmds ≡ length c.body_cmds
  pub hand_cmds : length c'.hand_cmds ≡ length c.hand_cmds
  pub motion_token : is_none c'.motion_token ≡ is_none c.motion_token
  pub names : map P.name c'.cameras ≡ map P.name c.cameras
  pub hand_tags : map P.tag c'.hands ≡ map P.tag c.hands
  pub body_cmd_tags : map P.tag c'.body_cmds ≡ map P.tag c.body_cmds
  pub hand_cmd_tags : map P.tag c'.hand_cmds ≡ map P.tag c.hand_cmds

-- The collectors that a program can come to.
pub data Reach (P : Parts) : Collector P → Type 0 where
  made : Reach P (new_collector P)
  starts : (e : Scene) (s : Settings) {c : Collector P} → Reach P c → Reach P (start P e s c).0
  moves : {c c' : Collector P} → Moved P c c' → Reach P c → Reach P c'
  reports :
      {ls : List Line} {c c' : Collector P}
      → print_report P c ≡ some (ls, c')
      → Reach P c
      → Reach P c'
  stops :
      (disk : MetaWrite) (utc : Text) (ns : ℤ) {c : Collector P}
      → Reach P c
      → Reach P (stop P disk utc ns c)
  labels :
      (disk : MetaWrite) (result : Text) {c : Collector P}
      → Reach P c
      → Reach P (write_result P disk result c)

record Inv (P : Parts) (c : Collector P) : Type 0 where
  cameras : length c.cameras ≤ length c.last_cam
  hands : length c.hands ≤ length c.last_hand
  body_cmds : length c.body_cmds ≤ length c.last_body_cmd
  hand_cmds : length c.hand_cmds ≤ length c.last_hand_cmd
  held : c.running ≡ not (holds_nothing P c)

nil-length {ℓ} : {A : Type ℓ} (xs : List A) → is_nil xs ≡ true → length xs ≡ 0
nil-length [] e = refl
nil-length (x ∷ xs) e = ground arith

is_nil-length {ℓ} : {A : Type ℓ} (xs ys : List A) → length xs ≡ length ys → is_nil xs ≡ is_nil ys
is_nil-length [] [] e = refl
is_nil-length [] (y ∷ ys) e = ground arith
is_nil-length (x ∷ xs) [] e = ground arith
is_nil-length (x ∷ xs) (y ∷ ys) e = refl

length-zeros_for {ℓ κ} :
    {A : Type ℓ} {B : Type κ} (z : B) (xs : List A) → length (zeros_for z xs) ≡ length xs
length-zeros_for z [] = refl
length-zeros_for z (x ∷ xs) = omega (arith, length-zeros_for z xs)

bind-some {ℓ κ} :
    {A : Type ℓ} {B : Type κ} {o : Option A} {a : A} (f : A → Option B)
    → o ≡ some a
    → (o >>= f) ≡ f a
bind-some f e = ap (λ o. o >>= f) e

module _ (P : Parts) where
  holding : (c : Collector P) → c.running ≡ false → holds_nothing P c ≡ true → Inv P c
  unfolding holds_nothing
  holding c off h = record {
    cameras = ground (arith, nil-length c.cameras);
    hands = ground (arith, nil-length c.hands);
    body_cmds = ground (arith, nil-length c.body_cmds);
    hand_cmds = ground (arith, nil-length c.hand_cmds);
    held = ground (arith, off, h);
  }

  announced :
      (e : Scene) (meta : Text) (c : Collector P)
      → holds_nothing P c ≡ false
      → Inv P (announce P e meta c)
  unfolding announce holds_nothing
  announced e meta c h = record {
    cameras = omega (arith, length-zeros_for no_cam_last c.cameras);
    hands = omega (arith, length-zeros_for no_last c.hands);
    body_cmds = omega (arith, length-zeros_for no_last c.body_cmds);
    hand_cmds = omega (arith, length-zeros_for no_last c.hand_cmds);
    held = sym (ap not h);
  }

  if-Inv :
      (b : Bool) (x y : Collector P × Bool)
      → (b ≡ true → Inv P x.0)
      → (b ≡ false → Inv P y.0)
      → Inv P (if b then x else y).0
  if-Inv = if-holds (λ p. Inv P p.0)

  -- The lists and `running` are what the invariant is about.
  relabelled :
      (c : Collector P) (settings : Settings) (session : SessionInfo) (meta : Text)
      → Inv P c
      → Inv P (record c { settings = settings; session = session; meta = meta })
  unfolding holds_nothing
  relabelled c settings session meta v = record {
    cameras = v.cameras;
    hands = v.hands;
    body_cmds = v.body_cmds;
    hand_cmds = v.hand_cmds;
    held = v.held;
  }

  finish_start-Inv :
      (e : Scene) (meta : Text) (c : Collector P)
      → c.running ≡ false
      → Inv P (finish_start P e meta c).0
  finish_start-Inv e meta c off =
      if-Inv (holds_nothing P c) (c, false) (announce P e meta c, true) (holding c off)
        (announced e meta c)

  start_recorders-running :
      (s : Settings) (dir : Text) (c : Collector P)
      → (start_recorders P s dir c).running ≡ c.running
  unfolding start_recorders
  start_recorders-running s dir c = refl

  start_in-Inv :
      (e : Scene) (session : SessionInfo) (s : Settings) (c : Collector P)
      → c.running ≡ false
      → Inv P c
      → Inv P (start_in P e session s c).0
  start_in-Inv e session s c off v =
      if-Inv (is_empty session.dir) _ _ (λ _. relabelled c c.settings session c.meta v)
        (λ _. finish_start-Inv e _ _ (start_recorders-running s session.dir _ ∙ off))

  start-Inv : (e : Scene) (s : Settings) (c : Collector P) → Inv P c → Inv P (start P e s c).0
  unfolding start
  start-Inv e s c v =
      if-Inv c.running _ _ (λ _. v)
        (λ off.
          if-Inv (nothing_enabled s) _ _ (λ _. relabelled c s c.session c.meta v)
            (λ _. start_in-Inv e _ s _ off (relabelled c s c.session c.meta v)))

  stop-Inv :
      (disk : MetaWrite) (utc : Text) (ns : ℤ) (c : Collector P)
      → Inv P c
      → Inv P (stop P disk utc ns c)
  unfolding stop holds_nothing
  stop-Inv disk utc ns c v =
      if-holds (Inv P) c.running _ c
        (λ _. record {
          cameras = omega arith;
          hands = omega arith;
          body_cmds = omega arith;
          hand_cmds = omega arith;
          held = refl;
        })
        (λ _. v)

  Moved-Inv : {c c' : Collector P} → Moved P c c' → Inv P c → Inv P c'
  unfolding holds_nothing
  Moved-Inv {c} {c'} m v = record {
    cameras = ground (arith, m.same, m.cameras, v.cameras);
    hands = ground (arith, m.same, m.hands, v.hands);
    body_cmds = ground (arith, m.same, m.body_cmds, v.body_cmds);
    hand_cmds = ground (arith, m.same, m.hand_cmds, v.hand_cmds);
    held = ground (
      arith,
      ap (λ k. Collector.running k) m.same,
      v.held,
      is_nil-length c'.cameras c.cameras m.cameras,
      m.lowstate,
      is_nil-length c'.hands c.hands m.hands,
      m.uwb,
      is_nil-length c'.body_cmds c.body_cmds m.body_cmds,
      is_nil-length c'.hand_cmds c.hand_cmds m.hand_cmds,
      m.motion_token,
    );
  }

  -- What the report leaves as it is.
  record Kept (c c' : Collector P) : Type 0 where
    cameras : (c'.cameras ≡ c.cameras) × (length c'.last_cam ≡ length c.last_cam)
    hands : (c'.hands ≡ c.hands) × (length c'.last_hand ≡ length c.last_hand)
    body_cmds : (c'.body_cmds ≡ c.body_cmds) × (length c'.last_body_cmd ≡ length c.last_body_cmd)
    hand_cmds : (c'.hand_cmds ≡ c.hand_cmds) × (length c'.last_hand_cmd ≡ length c.last_hand_cmd)
    running : c'.running ≡ c.running
    holds : holds_nothing P c' ≡ holds_nothing P c

  Inv-print_report :
      (c : Collector P)
      → Inv P c
      → (r : List Line × Collector P) × (print_report P c ≡ some r) × Kept c r.1
  unfolding print_report reported holds_nothing
  Inv-print_report c v =
      let (a, ea, na) = Fits-get _ _ (report_cameras-Fits P c.cameras c.last_cam v.cameras) in
      let (h, eh, nh) =
        Fits-get _ _ (report_streams-Fits P (text "hand_") c.hands c.last_hand v.hands) in
      let (b, eb, nb) =
        Fits-get _ _ (report_streams-Fits P [] c.body_cmds c.last_body_cmd v.body_cmds) in
      let (k, ek, nk) =
        Fits-get _ _
          (report_streams-Fits P (text "cmd_") c.hand_cmds c.last_hand_cmd v.hand_cmds) in
      let same : print_report P c ≡ some (reported P c a h b k) =
        bind-some _ ea ∙ (bind-some _ eh ∙ (bind-some _ eb ∙ bind-some _ ek)) in
      (
        reported P c a h b k,
        same,
        record {
          cameras = (refl, na);
          hands = (refl, nh);
          body_cmds = (refl, nb);
          hand_cmds = (refl, nk);
          running = refl;
          holds = refl;
        },
      )

  write_result-Inv :
      (disk : MetaWrite) (result : Text) (c : Collector P)
      → Inv P c
      → Inv P (write_result P disk result c)
  unfolding write_result
  write_result-Inv disk result c v = relabelled c c.settings c.session _ v

  Kept-Inv : {c c' : Collector P} → Kept c c' → Inv P c → Inv P c'
  Kept-Inv k v = record {
    cameras = ground (arith, k.cameras, v.cameras);
    hands = ground (arith, k.hands, v.hands);
    body_cmds = ground (arith, k.body_cmds, v.body_cmds);
    hand_cmds = ground (arith, k.hand_cmds, v.hand_cmds);
    held = k.running ∙ (v.held ∙ sym (ap not k.holds));
  }

  print_report-Inv :
      (ls : List Line) (c c' : Collector P) → print_report P c ≡ some (ls, c') → Inv P c → Inv P c'
  print_report-Inv ls c c' e v =
      let (r, same, k) = Inv-print_report c v in
      subst (Inv P) (ap (λ p. p.1) (some_injective (sym same ∙ e))) (Kept-Inv k v)

  Reach-Inv : {c : Collector P} → Reach P c → Inv P c
  unfolding new_collector holds_nothing
  Reach-Inv made = record {
    cameras = omega arith;
    hands = omega arith;
    body_cmds = omega arith;
    hand_cmds = omega arith;
    held = refl;
  }
  Reach-Inv (starts e s {c} l) = start-Inv e s c (Reach-Inv l)
  Reach-Inv (moves m l) = Moved-Inv m (Reach-Inv l)
  Reach-Inv (reports {ls} {c} {c'} e l) = print_report-Inv ls c c' e (Reach-Inv l)
  Reach-Inv (stops disk utc ns {c} l) = stop-Inv disk utc ns c (Reach-Inv l)
  Reach-Inv (labels disk result {c} l) = write_result-Inv disk result c (Reach-Inv l)

  -- However the collector got where it is, `print_report` reads none of its vectors out of range.
  pub Reach-print_report :
      {c : Collector P} → Reach P c → (r : List Line × Collector P) × (print_report P c ≡ some r)
  Reach-print_report {c} l = let (r, same, _) = Inv-print_report c (Reach-Inv l) in (r, same)

  -- However the collector got where it is, `running_` is true exactly when it holds a recorder.
  pub Reach-running : {c : Collector P} → Reach P c → c.running ≡ not (holds_nothing P c)
  Reach-running l = (Reach-Inv l).held
