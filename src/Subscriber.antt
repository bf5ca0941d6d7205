-- ===== src/Subscriber.antt =====
-- The take thread of ReliableSubscriber (include/realsense_recorder/reliable_subscriber.hpp), in any
-- interleaving with what DDS brings and with `stop`.
use kist_data_collector.Common.{
  ◌≡◌, refl, sym, ap, ◌∙◌, List, [], ◌∷◌, ◌++◌, append-nil, append_assoc, Bool, true, false,
  if◌then◌else◌, Bool-cases, inl, inr,
}

-- A sample of the reader: `valid` is `info().valid()`.
pub record Sample (Msg : Type 0) : Type 0 where
  pub valid : Bool
  pub msg : Msg

-- Where the take thread and `stop` are: the thread waits, it has seen `running_` false and ended,
-- `stop` has joined it, has swept the reader, has closed it.
pub data Stage : Type 0 where
  taking : Stage
  ended : Stage
  joined : Stage
  drained : Stage
  closed : Stage

module _ {Msg Frame : Type 0} (map_ : Msg → Frame) where
  -- `reader` are the samples that the reader holds, or held when it was closed; `frames` what
  -- `on_frame_` has got.
  pub record Subscriber : Type 0 where
    pub reader : List (Sample Msg)
    pub frames : List Frame
    pub running : Bool
    pub joinable : Bool
    pub stage : Stage

  -- The frames of the valid samples, in order.
  abbrev pub frames_of : List (Sample Msg) → List Frame
  frames_of [] = []
  frames_of (s ∷ samples) =
      let rest = frames_of samples in if s.valid then map_ s.msg ∷ rest else rest

  -- `drain`: `take` empties the reader.
  unfoldable pub drain_reader : Subscriber → Subscriber
  drain_reader r = record r { reader = []; frames = r.frames ++ frames_of r.reader }

  -- `start`, behind the opening of the reader.
  abbrev pub subscribed : Subscriber
  subscribed = record { reader = []; frames = []; running = true; joinable = true; stage = taking }

  -- One step of DDS, of the take thread or of `stop`. A wait that times out changes nothing. What
  -- lands between the last sweep and the closing of the reader is lost with it.
  pub data TakeStep : List (Sample Msg) → Subscriber → Subscriber → Type 0 where
    arrives :
        {r : Subscriber} (s : Sample Msg)
        → (r.stage ≡ closed → ⊥)
        → TakeStep (s ∷ []) r (record r { reader = r.reader ++ s ∷ [] })
    takes : {r : Subscriber} → r.stage ≡ taking → TakeStep [] r (drain_reader r)
    leaves :
        {r : Subscriber}
        → r.stage ≡ taking
        → r.running ≡ false
        → TakeStep [] r (record r { stage = ended })
    signals : {r : Subscriber} → r.joinable ≡ true → TakeStep [] r (record r { running = false })
    joins :
        {r : Subscriber}
        → r.joinable ≡ true
        → r.stage ≡ ended
        → TakeStep [] r (record r { joinable = false; stage = joined })
    sweeps :
        {r : Subscriber}
        → r.stage ≡ joined
        → TakeStep [] r (record (drain_reader r) { stage = drained })
    closes : {r : Subscriber} → r.stage ≡ drained → TakeStep [] r (record r { stage = closed })

  -- The states that a subscriber comes to, with the samples that have arrived.
  pub data TakeReach : List (Sample Msg) → Subscriber → Type 0 where
    opened : TakeReach [] subscribed
    then_ :
        {samples more : List (Sample Msg)} {r r' : Subscriber}
        → TakeReach samples r
        → TakeStep more r r'
        → TakeReach (samples ++ more) r'

  -- The samples whose frames were handed over, and those that the reader holds, are those that
  -- arrived, in order.
  record Handed (samples : List (Sample Msg)) (r : Subscriber) : Type 0 where
    before : List (Sample Msg)
    all : samples ≡ before ++ r.reader
    frames : r.frames ≡ frames_of before

  frames_of-append :
      (xs ys : List (Sample Msg)) → frames_of (xs ++ ys) ≡ frames_of xs ++ frames_of ys
  frames_of-append [] ys = refl
  frames_of-append (s ∷ xs) ys = elim (Bool-cases s.valid) [
    | inl h ↦ rw (h) (ap (◌∷◌ (map_ s.msg)) (frames_of-append xs ys))
    | inr h ↦ rw (h) (frames_of-append xs ys)
  ]

  drained-Handed :
      (samples : List (Sample Msg)) (r : Subscriber) (st : Stage)
      → Handed samples r
      → Handed (samples ++ []) (record (drain_reader r) { stage = st })
  unfolding drain_reader
  drained-Handed samples r st v = record {
    before = samples;
    all = refl;
    frames =
        ap (λ fs. fs ++ frames_of r.reader) v.frames
        ∙ sym (frames_of-append v.before r.reader)
        ∙ ap frames_of (sym v.all);
  }

  same-Handed :
      (samples : List (Sample Msg)) (r r' : Subscriber)
      → r'.reader ≡ r.reader
      → r'.frames ≡ r.frames
      → Handed samples r
      → Handed (samples ++ []) r'
  same-Handed samples r r' e f v = record {
    before = v.before;
    all = append-nil samples ∙ v.all ∙ ap (◌++◌ v.before) (sym e);
    frames = f ∙ v.frames;
  }

  step-Handed :
      (samples : List (Sample Msg)) {more : List (Sample Msg)} {r r' : Subscriber}
      → TakeStep more r r'
      → Handed samples r
      → Handed (samples ++ more) r'
  unfolding drain_reader
  step-Handed samples {r = r} (arrives s still) v = record {
    before = v.before;
    all = ap (λ ss. ss ++ s ∷ []) v.all ∙ append_assoc v.before r.reader (s ∷ []);
    frames = v.frames;
  }
  step-Handed samples {r = r} (takes e) v = drained-Handed samples r r.stage v
  step-Handed samples {r = r} (leaves e q) v = same-Handed samples r _ refl refl v
  step-Handed samples {r = r} (signals j) v = same-Handed samples r _ refl refl v
  step-Handed samples {r = r} (joins j e) v = same-Handed samples r _ refl refl v
  step-Handed samples {r = r} (sweeps e) v = drained-Handed samples r drained v
  step-Handed samples {r = r} (closes e) v = same-Handed samples r _ refl refl v

  TakeReach-Handed :
      {samples : List (Sample Msg)} {r : Subscriber} → TakeReach samples r → Handed samples r
  TakeReach-Handed opened = record { before = []; all = refl; frames = refl }
  TakeReach-Handed (then_ {samples} l s) = step-Handed samples s (TakeReach-Handed l)

  -- The samples that have arrived since the reader was last emptied.
  abbrev pub step_late :
      {more : List (Sample Msg)} {r r' : Subscriber}
      → TakeStep more r r'
      → List (Sample Msg)
      → List (Sample Msg)
  step_late (arrives s still) late = late ++ s ∷ []
  step_late (takes e) late = []
  step_late (leaves e q) late = late
  step_late (signals j) late = late
  step_late (joins j e) late = late
  step_late (sweeps e) late = []
  step_late (closes e) late = late

  abbrev pub late_of :
      {samples : List (Sample Msg)} {r : Subscriber} → TakeReach samples r → List (Sample Msg)
  late_of opened = []
  late_of (then_ l s) = step_late s (late_of l)

  reader-late_of :
      {samples : List (Sample Msg)} {r : Subscriber} (l : TakeReach samples r)
      → r.reader ≡ late_of l
  unfolding drain_reader
  reader-late_of opened = refl
  reader-late_of (then_ l (arrives s still)) = ap (λ ss. ss ++ s ∷ []) (reader-late_of l)
  reader-late_of (then_ l (takes e)) = refl
  reader-late_of (then_ l (leaves e q)) = reader-late_of l
  reader-late_of (then_ l (signals j)) = reader-late_of l
  reader-late_of (then_ l (joins j e)) = reader-late_of l
  reader-late_of (then_ l (sweeps e)) = refl
  reader-late_of (then_ l (closes e)) = reader-late_of l

  pub TakeReach-frames :
      {samples : List (Sample Msg)} {r : Subscriber} (l : TakeReach samples r)
      → (before : List (Sample Msg)) × (samples ≡ before ++ late_of l)
        × (r.frames ≡ frames_of before)
  unfolding drain_reader
  TakeReach-frames l =
      let v = TakeReach-Handed l in
      (v.before, v.all ∙ ap (◌++◌ v.before) (reader-late_of l), v.frames)
