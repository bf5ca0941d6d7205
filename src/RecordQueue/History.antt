-- ===== src/RecordQueue/History.antt =====
-- Histories of a queue (include/common/record_queue.hpp): any interleaving of its operations,
-- with the records that `push` took and those that `pop_all` handed over.
use kist_data_collector.Common.{
  ℕ, ◌≤◌, ◌≡◌, refl, sym, ap, ◌∙◌, List, [], ◌∷◌, ◌++◌, append-nil, append_assoc, Bool, true,
  length, length-append, if◌then◌else◌, arith,
}
use kist_data_collector.RecordQueue.{
  RecordQueue, Popped, blocked, drained, batch, open_queue, push, pop_all, pop_from, close,
}

pub data Op {ℓ} (T : Type ℓ) : Type ℓ where
  pushes : T → Op T
  pops : Op T
  closes : Op T

pub record Log {ℓ} (T : Type ℓ) : Type ℓ where
  pub state : RecordQueue T
  pub accepted : List T
  pub delivered : List T

module _ {ℓ} {T : Type ℓ} where
  abbrev logged_push : T → Log T → RecordQueue T × Bool → Log T
  logged_push x l (q, ok) = record l {
    state = q;
    accepted = if ok then l.accepted ++ x ∷ [] else l.accepted;
  }

  abbrev logged_pop : Log T → Popped T → Log T
  logged_pop l blocked = l
  logged_pop l drained = l
  logged_pop l (batch b q) = record l { state = q; delivered = l.delivered ++ b }

  unfoldable pub step : Log T → Op T → Log T
  step l (pushes x) = logged_push x l (push x l.state)
  step l pops = logged_pop l (pop_all l.state)
  step l closes = record l { state = close l.state }

  unfoldable pub run : Log T → List (Op T) → Log T
  run l [] = l
  run l (o ∷ os) = run (step l o) os

  pub opened : ℕ → RecordQueue T → Log T
  opened capacity q = record { state = open_queue capacity q; accepted = []; delivered = [] }

  pub record Inv (capacity : ℕ) (l : Log T) : Type ℓ where
    pub fifo : l.accepted ≡ l.delivered ++ l.state.queue
    pub kept : l.state.capacity ≡ capacity
    pub bounded : length l.state.queue ≤ capacity

  push-Inv : (c : ℕ) (l : Log T) (x : T) → Inv c l → Inv c (step l (pushes x))
  unfolding step push
  push-Inv c l x v =
      ground (
        arith,
        length-append l.state.queue (x ∷ []),
        append_assoc l.delivered l.state.queue (x ∷ []),
      )

  pop-Inv :
      (c : ℕ) (l : Log T) (xs : List T)
      → l.state.queue ≡ xs
      → Inv c l
      → Inv c (logged_pop l (pop_from xs l.state))
  pop-Inv c l [] e v = ground arith
  pop-Inv c l (x ∷ xs) e v = record {
    fifo = v.fifo ∙ ap (◌++◌ l.delivered) e ∙ sym (append-nil (l.delivered ++ x ∷ xs));
    kept = v.kept;
    bounded = omega arith;
  }

  pub step-Inv : (c : ℕ) (l : Log T) (o : Op T) → Inv c l → Inv c (step l o)
  unfolding step pop_all close
  step-Inv c l (pushes x) v = push-Inv c l x v
  step-Inv c l pops v = pop-Inv c l l.state.queue refl v
  step-Inv c l closes v = record { fifo = v.fifo; kept = v.kept; bounded = v.bounded }

  run-Inv : (c : ℕ) (l : Log T) (os : List (Op T)) → Inv c l → Inv c (run l os)
  unfolding run
  run-Inv c l [] v = v
  run-Inv c l (o ∷ os) v = run-Inv c (step l o) os (step-Inv c l o v)

  -- After any history of pushes, pops and closes from `open(capacity)`, the records that `push`
  -- took are, in order and each once, those handed to the writer and then those still queued; and
  -- the queue never holds more than `capacity` records.
  pub run-opened-Inv :
      (capacity : ℕ) (q : RecordQueue T) (os : List (Op T))
      → Inv capacity (run (opened capacity q) os)
  unfolding opened open_queue
  run-opened-Inv c q os =
      run-Inv c _ os (record { fifo = refl; kept = refl; bounded = omega arith })

  -- A closed queue takes nothing, and once it is empty it stays so.
  record Shut (xs : List T) (l : Log T) : Type ℓ where
    closed : l.state.closed ≡ true
    accepted : l.accepted ≡ xs
    empty : l.state.queue ≡ []
    delivered : l.delivered ≡ xs

  step-Shut : (xs : List T) (l : Log T) (o : Op T) → Shut xs l → Shut xs (step l o)
  unfolding step push pop_all close
  step-Shut xs l (pushes x) v = ground arith
  step-Shut xs l pops v = rw (v.empty, pop_from) (ground arith)
  step-Shut xs l closes v = ground arith

  run-Shut : (xs : List T) (l : Log T) (os : List (Op T)) → Shut xs l → Shut xs (run l os)
  unfolding run
  run-Shut xs l [] v = v
  run-Shut xs l (o ∷ os) v = run-Shut xs (step l o) os (step-Shut xs l o v)

  pop-Shut :
      (c : ℕ) (l : Log T) (ys : List T)
      → Inv c l
      → l.state.closed ≡ true
      → l.state.queue ≡ ys
      → Shut l.accepted (logged_pop l (pop_from ys l.state))
  pop-Shut c l [] v h e = ground (arith, append-nil l.delivered)
  pop-Shut c l (y ∷ ys) v h e = ground arith

  -- Once the queue is closed, the next `pop_all` brings the writer every record that was ever
  -- taken, and whatever follows, pushes included, neither adds a record nor takes one back.
  pub run-closed :
      (capacity : ℕ) (l : Log T) (os : List (Op T))
      → Inv capacity l
      → l.state.closed ≡ true
      → let m = run l (pops ∷ os) in
        (m.accepted ≡ l.accepted) × (m.delivered ≡ l.accepted) × (pop_all m.state ≡ drained)
  unfolding run step pop_all
  run-closed c l os v h =
      let s = run-Shut l.accepted _ os (pop-Shut c l l.state.queue v h refl) in
      (s.accepted, s.delivered, rw (s.empty, pop_from) (ground arith))
