-- ===== src/Export/Worker.antt =====
-- `start`, `stop`, `wait`, `running` and `succeeded` of the four exporters (include/export,
-- src/export), which are the same but for the names of the input files: one worker thread, and the
-- interleavings of its last stores with the owner's calls.
use kist_data_collector.Common.{
  ◌≡◌, ◌≢◌, refl, sym, ◌∙◌, Bool, true, false, not, Option, none, some, if◌then◌else◌, if-holds,
  arith, ◌↔◌, ◌⊎◌, subst, some_injective, inl, inr,
}

-- Where the thread is: there is none to join, it runs, it has stored `ok_`, it has ended.
pub data Phase : Type 0 where
  idle : Phase
  working : Phase
  stored : Phase
  ended : Phase

-- The members, with `result`, what the last run came to.
pub record Worker : Type 0 where
  pub joinable : Bool
  pub running : Bool
  pub cancel : Bool
  pub ok : Bool
  pub phase : Phase
  pub result : Bool

-- The members' initial values.
abbrev pub fresh_worker : Worker
fresh_worker = record {
  joinable = false;
  running = false;
  cancel = false;
  ok = false;
  phase = idle;
  result = false;
}

abbrev pub launched_worker : Worker → Worker
launched_worker w = record w {
  joinable = true;
  running = true;
  cancel = false;
  ok = false;
  phase = working;
}

-- `inputs` says that the blob and the index exist. `none` is std::terminate, which the assignment to
-- a joinable std::thread calls.
unfoldable pub start_worker : (inputs : Bool) → Worker → Option (Worker × Bool)
start_worker inputs w =
    if w.running
    then some (w, false)
    else if not inputs
    then some (w, false)
    else if w.joinable
    then none
    else some (launched_worker w, true)

-- The end of `run` after a conversion: `ok_ = complete`, then `running_ = false`.
abbrev pub store : Bool → Worker → Worker
store complete w = record w { ok = complete; result = complete; phase = stored }

abbrev pub clear : Worker → Worker
clear w = record w { running = false; phase = ended }

-- An early return of `run`.
abbrev pub give_up : Worker → Worker
give_up w = record w { running = false; result = false; phase = ended }

-- What `join` leaves.
abbrev pub joined : Worker → Worker
joined w = record w { joinable = false; phase = idle }

-- One step of the owner or of the worker thread. `wait` joins a joinable thread once it has ended,
-- and does nothing otherwise; `stop` sets `cancel_` and waits; the destructor calls `stop`.
pub data WorkerStep : Worker → Worker → Type 0 where
  starts :
      {w w' : Worker} (inputs answer : Bool)
      → start_worker inputs w ≡ some (w', answer)
      → WorkerStep w w'
  stores : {w : Worker} (complete : Bool) → w.phase ≡ working → WorkerStep w (store complete w)
  clears : {w : Worker} → w.phase ≡ stored → WorkerStep w (clear w)
  gives_up : {w : Worker} → w.phase ≡ working → WorkerStep w (give_up w)
  cancels : {w : Worker} → WorkerStep w (record w { cancel = true })
  joins : {w : Worker} → w.joinable ≡ true → w.phase ≡ ended → WorkerStep w (joined w)

pub data WorkerReach : Worker → Type 0 where
  fresh : WorkerReach fresh_worker
  then_ : {w w' : Worker} → WorkerReach w → WorkerStep w w' → WorkerReach w'

-- What the members are in each phase.
abbrev pub Agrees : Phase → Worker → Type 0
Agrees idle w = (w.joinable ≡ false) × (w.running ≡ false) × (w.ok ≡ w.result)
Agrees working w = (w.joinable ≡ true) × (w.running ≡ true) × (w.ok ≡ false)
Agrees stored w = (w.joinable ≡ true) × (w.running ≡ true) × (w.ok ≡ w.result)
Agrees ended w = (w.joinable ≡ true) × (w.running ≡ false) × (w.ok ≡ w.result)

carry :
    (x w' : Worker) (b answer : Bool)
    → Agrees x.phase x
    → ◌≡◌ {A = Option (Worker × Bool)} (some (x, b)) (some (w', answer))
    → Agrees w'.phase w'
carry x w' b answer h k =
    subst (λ (p : Worker × Bool). Agrees p.0.phase p.0) (some_injective {A = Worker × Bool} k) h

started :
    (w w' : Worker) (answer inputs : Bool)
    → start_worker inputs w ≡ some (w', answer)
    → Agrees w.phase w
    → Agrees w'.phase w'
unfolding start_worker
started w w' answer inputs e v =
    if-holds Next w.running _ _ (carry_on w false v)
      (λ _. if-holds Next (not inputs) _ _ (carry_on w false v) λ _.
        if-holds Next w.joinable _ _ (λ _ k. absurd (ground (arith, k)))
          (carry_on (launched_worker w) true (refl, refl, refl)))
      e
  where
    Next : Option (Worker × Bool) → Type 0
    Next o = o ≡ some (w', answer) → Agrees w'.phase w'

    carry_on :
        (x : Worker) (b : Bool) → Agrees x.phase x → {c d : Bool} → c ≡ d → Next (some (x, b))
    carry_on x b h _ = carry x w' b answer h

cancelled : (p : Phase) (w : Worker) → Agrees p w → Agrees p (record w { cancel = true })
cancelled idle w v = v
cancelled working w v = v
cancelled stored w v = v
cancelled ended w v = v

step-Agrees : {w w' : Worker} → WorkerStep w w' → Agrees w.phase w → Agrees w'.phase w'
step-Agrees {w} {w'} (starts inputs answer e) v = started w w' answer inputs e v
step-Agrees {w} (stores complete e) v = let (j, r, _) = subst (λ p. Agrees p w) e v in (j, r, refl)
step-Agrees {w} (clears e) v = let (j, _, o) = subst (λ p. Agrees p w) e v in (j, refl, o)
step-Agrees {w} (gives_up e) v = let (j, _, o) = subst (λ p. Agrees p w) e v in (j, refl, o)
step-Agrees {w} cancels v = cancelled w.phase w v
step-Agrees {w} (joins j e) v = let (_, r, o) = subst (λ p. Agrees p w) e v in (refl, r, o)

pub Reach-Agrees : {w : Worker} → WorkerReach w → Agrees w.phase w
Reach-Agrees fresh = (refl, refl, refl)
Reach-Agrees (then_ l s) = step-Agrees s (Reach-Agrees l)

phase_cases :
    (p : Phase) (w : Worker)
    → Agrees p w
    → ((p ≡ ended) × (w.running ≡ false) × (w.joinable ≡ true) × (w.ok ≡ w.result))
      ⊎ ((p ≢ ended) × (w.joinable ≡ w.running) × (w.running ≡ false → w.ok ≡ w.result))
phase_cases idle w (j, r, o) = inr (λ e. ground (arith, e), j ∙ sym r, λ _. o)
phase_cases working w (j, r, _) = inr (λ e. ground (arith, e), j ∙ sym r, λ h. ground (arith, h, r))
phase_cases stored w (j, r, o) = inr (λ e. ground (arith, e), j ∙ sym r, λ _. o)
phase_cases ended w (j, r, o) = inl (refl, r, j, o)

-- In every state that the calls and the thread can reach, with the inputs there, `start` calls
-- std::terminate exactly if the last run has ended and was not waited for.
pub start-terminates :
    {w : Worker} → WorkerReach w → (start_worker true w ≡ none) ↔ (w.phase ≡ ended)
unfolding start_worker
start-terminates {w} l = elim (phase_cases w.phase w (Reach-Agrees l)) [
  | inl (e, r, j, _) ↦ (λ _. e, λ _. rw (r, j) refl)
  | inr (e, same, _) ↦ (λ h. ground (arith, h, same), λ h. absurd (e h))
]

-- In every state that the calls and the thread can reach: a worker that runs has a thread to join,
-- and one that does not run reports in `succeeded` what its last run came to, false if there was
-- none.
pub succeeded_lem :
    {w : Worker}
    → WorkerReach w
    → (w.running ≡ true → w.joinable ≡ true) × (w.running ≡ false → w.ok ≡ w.result)
succeeded_lem {w} l = elim (phase_cases w.phase w (Reach-Agrees l)) [
  | inl (_, r, j, o) ↦ (λ _. j, λ _. o)
  | inr (_, same, o) ↦ (λ h. same ∙ h, o)
]
