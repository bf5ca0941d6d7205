-- ===== src/Collector/Plain.antt =====
-- The texts in the summary that DataCollector::stop (src/system/data_collector.cpp) appends to
-- meta.yaml, and the cameras in its head: single lines.
use kist_data_collector.Common.{
  ℕ, ◌≡◌, refl, sym, subst, List, [], ◌∷◌, map, Bool, true, false, Option, none, some, Every,
  Every-append, if-holds,
}
use kist_data_collector.Common.Text.{Text, text}
use kist_data_collector.Common.Int.{ℤ}
use kist_data_collector.Common.Lacks.{Lacks, lacks, lacks-Lacks, Lacks-append}
use kist_data_collector.Session.{SessionInfo, StreamSummary, is_empty}
use kist_data_collector.Settings.{Settings}
use kist_data_collector.Collector.{Parts, Collector, new_collector}
use kist_data_collector.Collector.Start.{
  Scene, start, start_in, start_recorders, announce, holds_nothing, nothing_enabled, both_sides,
  body_cmd, started_cameras, kept, named,
}
use kist_data_collector.Collector.Runs.{Moved}
use kist_data_collector.Collector.Stop.{summary_of, camera_summaries, stream_summaries, one_summary}

-- A predicate on what is read of the elements, where that is the same of both lists.
Every-same :
    {A : Type 0} {B : Type 0} (Q : B → Type 0) (f : A → B) (xs ys : List A)
    → map f xs ≡ map f ys
    → Every (λ y. Q (f y)) ys
    → Every (λ x. Q (f x)) xs
Every-same Q f [] ys h v = tt
Every-same Q f (x ∷ xs) [] h v = absurd (cc h)
Every-same Q f (x ∷ xs) (y ∷ ys) h (v, vs) =
    let head : f y ≡ f x = cc in
    let rest : map f xs ≡ map f ys = cc in (subst Q head v, Every-same Q f xs ys rest vs)

module _ (P : Parts) where
  -- What the recorders do with their names: a camera recorder has the name that it was started with,
  -- the recorder of a hand its side, and that of a command topic a text that holds no end of a line if
  -- the name of its file does not; and they keep it when they are stopped.
  pub record NamedParts : Type 0 where
    pub stop_name : (r : P.Camera) → P.name (P.stop_camera r) ≡ P.name r
    pub stop_tag : (r : P.Stream) → P.tag (P.stop_stream r) ≡ P.tag r
    pub camera :
        (domain : ℤ) (name dir : Text) (capacity : ℕ) (reliable : Bool) (r : P.Camera)
        → P.start_camera domain name dir capacity reliable ≡ some r
        → P.name r ≡ name
    pub dex3 :
        (domain : ℤ) (iface dir side : Text) (capacity : ℕ) (r : P.Stream)
        → P.start_dex3 domain iface dir side capacity ≡ some r
        → P.tag r ≡ side
    pub dex3_cmd :
        (domain : ℤ) (iface dir side : Text) (capacity : ℕ) (r : P.Stream)
        → P.start_dex3_cmd domain iface dir side capacity ≡ some r
        → P.tag r ≡ side
    pub lowcmd :
        (domain : ℤ) (iface dir : Text) (capacity : ℕ) (topic csv : Text) (r : P.Stream)
        → P.start_lowcmd domain iface dir capacity topic csv ≡ some r
        → Lacks 10 csv
        → Lacks 10 (P.tag r)

  abbrev PlainName : P.Camera → Type 0
  PlainName r = Lacks 10 (P.name r)

  abbrev PlainTag : P.Stream → Type 0
  PlainTag r = Lacks 10 (P.tag r)

  -- A collector whose recorders have such names.
  pub record IsPlain (c : Collector P) : Type 0 where
    pub cameras : Every PlainName c.cameras
    pub hands : Every PlainTag c.hands
    pub body_cmds : Every PlainTag c.body_cmds
    pub hand_cmds : Every PlainTag c.hand_cmds

  pub new_collector-IsPlain : IsPlain (new_collector P)
  unfolding new_collector
  new_collector-IsPlain = record { cameras = tt; hands = tt; body_cmds = tt; hand_cmds = tt }

  pub Moved-IsPlain : {c c' : Collector P} → Moved P c c' → IsPlain c → IsPlain c'
  Moved-IsPlain m v = record {
    cameras = Every-same (Lacks 10) P.name _ _ m.names v.cameras;
    hands = Every-same (Lacks 10) P.tag _ _ m.hand_tags v.hands;
    body_cmds = Every-same (Lacks 10) P.tag _ _ m.body_cmd_tags v.body_cmds;
    hand_cmds = Every-same (Lacks 10) P.tag _ _ m.hand_cmd_tags v.hand_cmds;
  }

  -- An entry of a summary without an end of a line in its texts.
  abbrev pub IsPlainEntry : StreamSummary → Type 0
  IsPlainEntry s = Lacks 10 s.source × Lacks 10 s.stream

  module _ (v : NamedParts) where
    -- The recorders kept.
    kept-names :
        (name : Text) (o : Option P.Camera) (rest : List (Text × P.Camera))
        → ((r : P.Camera) → o ≡ some r → PlainName r)
        → Every PlainName (map (λ p. p.1) rest)
        → Every PlainName (map (λ p. p.1) (kept (named name o) rest))
    kept-names name none rest h k = k
    kept-names name (some r) rest h k = (h r refl, k)

    kept-tags :
        (o : Option P.Stream) (rest : List P.Stream)
        → ((r : P.Stream) → o ≡ some r → PlainTag r)
        → Every PlainTag rest
        → Every PlainTag (kept o rest)
    kept-tags none rest h k = k
    kept-tags (some r) rest h k = (h r refl, k)

    cameras-names :
        (s : Settings) (dir : Text) (names : List Text)
        → Every (Lacks 10) names
        → Every PlainName (map (λ p. p.1) (started_cameras P s dir names))
    cameras-names s dir [] h = tt
    cameras-names s dir (name ∷ names) (h, hs) =
        kept-names name _ (started_cameras P s dir names)
          (λ r e. subst (Lacks 10) (sym (v.camera _ _ _ _ _ r e)) h) (cameras-names s dir names hs)

    sides-tags :
        (enabled : Bool) (start : Text → Option P.Stream)
        → ((side : Text) (r : P.Stream) → start side ≡ some r → P.tag r ≡ side)
        → Every PlainTag (both_sides P enabled start)
    sides-tags false start h = tt
    sides-tags true start h =
        kept-tags (start (text "left")) _
          (λ r e. subst (Lacks 10) (sym (h _ r e)) (lacks-Lacks 10 (text "left") refl))
          (kept-tags (start (text "right")) []
            (λ r e. subst (Lacks 10) (sym (h _ r e)) (lacks-Lacks 10 (text "right") refl)) tt)

    body_cmd-tag :
        (s : Settings) (dir : Text) (enabled : Bool) (capacity : ℕ) (topic csv : Text)
        → lacks 10 csv ≡ true
        → (r : P.Stream) → body_cmd P s dir enabled capacity topic csv ≡ some r
        → PlainTag r
    body_cmd-tag s dir false capacity topic csv h r e = absurd (cc e)
    body_cmd-tag s dir true capacity topic csv h r e =
        v.lowcmd _ _ _ _ _ _ r e (lacks-Lacks 10 csv h)

    start_recorders-IsPlain :
        (s : Settings) (dir : Text) (c : Collector P)
        → Every (Lacks 10) s.cameras
        → IsPlain c
        → IsPlain (start_recorders P s dir c)
    unfolding start_recorders
    start_recorders-IsPlain s dir c h w = record {
      cameras = Every-append PlainName c.cameras _ w.cameras (cameras-names s dir s.cameras h);
      hands = Every-append PlainTag c.hands _ w.hands (
          sides-tags s.dex3_enabled
            (λ side. P.start_dex3 s.domain_id [] dir side s.dex3_queue_capacity)
            (λ side. v.dex3 s.domain_id [] dir side s.dex3_queue_capacity));
      body_cmds = Every-append PlainTag c.body_cmds _ w.body_cmds (
          kept-tags _ _
            (body_cmd-tag s dir s.lowcmd_enabled _ (text "rt/lowcmd") (text "lowcmd.csv") refl)
            (kept-tags _ []
              (body_cmd-tag s dir s.arm_sdk_enabled _ (text "rt/arm_sdk") (text "arm_sdk.csv") refl)
              tt));
      hand_cmds = Every-append PlainTag c.hand_cmds _ w.hand_cmds (
          sides-tags s.dex3_cmd_enabled
            (λ side. P.start_dex3_cmd s.domain_id [] dir side s.dex3_cmd_queue_capacity)
            (λ side. v.dex3_cmd s.domain_id [] dir side s.dex3_cmd_queue_capacity));
    }

    start_in-IsPlain :
        (e : Scene) (session : SessionInfo) (s : Settings) (c : Collector P)
        → Every (Lacks 10) s.cameras
        → IsPlain c
        → IsPlain (start_in P e session s c).0
    unfolding announce
    start_in-IsPlain e session s c h w =
        let held : Collector P = start_recorders P s session.dir (record c { session = session }) in
        let started : IsPlain held =
          start_recorders-IsPlain s session.dir (record c { session = session }) h
            (record {
              cameras = w.cameras;
              hands = w.hands;
              body_cmds = w.body_cmds;
              hand_cmds = w.hand_cmds;
            }) in
        if-holds (λ (p : Collector P × Bool). IsPlain p.0) (is_empty session.dir) _ _
          (λ _. record {
            cameras = w.cameras;
            hands = w.hands;
            body_cmds = w.body_cmds;
            hand_cmds = w.hand_cmds;
          })
          λ _.
            if-holds (λ (p : Collector P × Bool). IsPlain p.0) (holds_nothing P held) _ _
              (λ _. started)
              λ _. record {
                cameras = started.cameras;
                hands = started.hands;
                body_cmds = started.body_cmds;
                hand_cmds = started.hand_cmds;
              }

    -- Where the settings' cameras have such names, `start` starts only recorders that have.
    pub start-IsPlain :
        (e : Scene) (s : Settings) (c : Collector P)
        → Every (Lacks 10) s.cameras
        → IsPlain c
        → IsPlain (start P e s c).0
    unfolding start
    start-IsPlain e s c h w =
        let same : IsPlain (record c { settings = s }) = record {
          cameras = w.cameras;
          hands = w.hands;
          body_cmds = w.body_cmds;
          hand_cmds = w.hand_cmds;
        } in
        if-holds (λ (p : Collector P × Bool). IsPlain p.0) c.running _ _ (λ _. w)
          λ _.
            if-holds (λ (p : Collector P × Bool). IsPlain p.0) (nothing_enabled s) _ _ (λ _. same)
              λ _. start_in-IsPlain e _ s (record c { settings = s }) h same

    -- The names stand in the summary as they are in the recorders.
    cameras-plain :
        (recs : List P.Camera) → Every PlainName recs → Every IsPlainEntry (camera_summaries P recs)
    unfolding camera_summaries
    cameras-plain [] h = tt
    cameras-plain (rec ∷ recs) (h, hs) =
        let k = subst (Lacks 10) (sym (v.stop_name rec)) h in
        (
          (k, lacks-Lacks 10 (text "color") refl),
          ((k, lacks-Lacks 10 (text "depth") refl), cameras-plain recs hs),
        )

    streams-plain :
        (source prefix : Text) (recs : List P.Stream)
        → lacks 10 source ≡ true
        → lacks 10 prefix ≡ true
        → Every PlainTag recs
        → Every IsPlainEntry (stream_summaries P source prefix recs)
    unfolding stream_summaries
    streams-plain source prefix [] h k t = tt
    streams-plain source prefix (rec ∷ recs) h k (t, ts) = (
      (
        lacks-Lacks 10 source h,
        Lacks-append 10 prefix (P.tag (P.stop_stream rec)) (lacks-Lacks 10 prefix k)
            (subst (Lacks 10) (sym (v.stop_tag rec)) t),
      ),
      streams-plain source prefix recs h k ts,
    )

    one-plain :
        (source stream : Text) (o : Option P.Stream)
        → lacks 10 source ≡ true
        → lacks 10 stream ≡ true
        → Every IsPlainEntry (one_summary P source stream o)
    one-plain source stream none h k = tt
    one-plain source stream (some rec) h k =
        ((lacks-Lacks 10 source h, lacks-Lacks 10 stream k), tt)

    pub summary-plain : (c : Collector P) → IsPlain c → Every IsPlainEntry (summary_of P c)
    unfolding summary_of
    summary-plain c w =
        Every-append IsPlainEntry _ _
          (Every-append IsPlainEntry _ _
            (Every-append IsPlainEntry _ _
              (Every-append IsPlainEntry _ _
                (Every-append IsPlainEntry _ _
                  (Every-append IsPlainEntry _ _ (cameras-plain c.cameras w.cameras)
                    (one-plain (text "unitree") (text "lowstate") c.lowstate refl refl))
                  (streams-plain (text "dex3") (text "hand_") c.hands refl refl w.hands))
                (one-plain (text "uwb") (text "position") c.uwb refl refl))
              (streams-plain (text "unitree") [] c.body_cmds refl refl w.body_cmds))
            (streams-plain (text "dex3") (text "hand_cmd_") c.hand_cmds refl refl w.hand_cmds))
          (one-plain (text "gearsonic") (text "motion_token") c.motion_token refl refl)

  kept-plain :
      (name : Text) (o : Option P.Camera) (rest : List (Text × P.Camera))
      → Lacks 10 name
      → Every (Lacks 10) (map (λ p. p.0) rest)
      → Every (Lacks 10) (map (λ p. p.0) (kept (named name o) rest))
  kept-plain name none rest h k = k
  kept-plain name (some a) rest h k = (h, k)

  -- The cameras that started are among those that the settings name.
  pub started_cameras-plain :
      (s : Settings) (dir : Text) (names : List Text)
      → Every (Lacks 10) names
      → Every (Lacks 10) (map (λ p. p.0) (started_cameras P s dir names))
  started_cameras-plain s dir [] h = tt
  started_cameras-plain s dir (name ∷ names) (h, hs) =
      kept-plain name _ (started_cameras P s dir names) h (started_cameras-plain s dir names hs)
