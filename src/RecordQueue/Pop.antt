-- ===== src/RecordQueue/Pop.antt =====
-- What the results of `pop_all` say of the queue (include/common/record_queue.hpp).
use kist_data_collector.Common.{◌≡◌, List, [], ◌∷◌, ◌++◌, true, false, arith}
use kist_data_collector.RecordQueue.{RecordQueue, drained, batch, push, pop_all, pop_from}

module _ {ℓ} {T : Type ℓ} where
  pop_from-batch :
      (xs : List T) (q : RecordQueue T) {b : List T} {q' : RecordQueue T}
      → pop_from xs q ≡ batch b q'
      → (b ≡ xs) × (q' ≡ record q { queue = [] })
  pop_from-batch [] q h = ground arith
  pop_from-batch (x ∷ xs) q h = ground arith

  -- `pop_all` hands over exactly what the queue held.
  pub pop_all-batch :
      (q : RecordQueue T) {b : List T} {q' : RecordQueue T}
      → pop_all q ≡ batch b q'
      → (b ≡ q.queue) × (q' ≡ record q { queue = [] })
  unfolding pop_all
  pop_all-batch q h = pop_from-batch q.queue q h

  pop_from-drained :
      (xs : List T) (q : RecordQueue T) → pop_from xs q ≡ drained → (xs ≡ []) × (q.closed ≡ true)
  pop_from-drained [] q h = ground arith
  pop_from-drained (x ∷ xs) q h = ground arith

  -- It tells the writer to leave only when the queue is closed and empty.
  pub pop_all-drained :
      (q : RecordQueue T) → pop_all q ≡ drained → (q.queue ≡ []) × (q.closed ≡ true)
  unfolding pop_all
  pop_all-drained q h = pop_from-drained q.queue q h

  -- A push that returns true has put its record at the end, and changed nothing else.
  pub push-true :
      (x : T) (q : RecordQueue T) {q' : RecordQueue T}
      → push x q ≡ (q', true)
      → (q' ≡ record q { queue = q.queue ++ x ∷ [] }) × (q.closed ≡ false)
  unfolding push
  push-true x q h = ground arith

  -- A push that returns false has changed nothing.
  pub push-false :
      (x : T) (q : RecordQueue T) {q' : RecordQueue T} → push x q ≡ (q', false) → q' ≡ q
  unfolding push
  push-false x q h = ground arith
