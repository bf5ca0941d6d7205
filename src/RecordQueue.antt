-- ===== src/RecordQueue.antt =====
-- include/common/record_queue.hpp: the bounded hand-off queue between a producer and one writer.
-- The mutex makes each operation atomic, so an operation is a function on the queue's state; a
-- call of `pop_all` that would wait on the condition variable gives `blocked`.
pub mod History
pub mod Pop
use kist_data_collector.Common.{
  ℕ, List, [], ◌∷◌, ◌++◌, Bool, true, false, ◌||◌, length, leb, if◌then◌else◌,
}

pub record RecordQueue {ℓ} (T : Type ℓ) : Type ℓ where
  pub queue : List T
  pub capacity : ℕ
  pub closed : Bool

-- What a call of `pop_all` does: it blocks, it returns false, or it hands over the whole batch.
pub data Popped {ℓ} (T : Type ℓ) : Type ℓ where
  blocked : Popped T
  drained : Popped T
  batch : List T → RecordQueue T → Popped T

module _ {ℓ} {T : Type ℓ} where
  -- The members' initial values.
  abbrev pub initial : RecordQueue T
  initial = record { queue = []; capacity = 0; closed = false }

  unfoldable pub open_queue : ℕ → RecordQueue T → RecordQueue T
  open_queue capacity q = record q { queue = []; capacity = capacity; closed = false }

  -- Behind the result stands what `push` returns.
  unfoldable pub push : T → RecordQueue T → RecordQueue T × Bool
  push item q =
      if q.closed || leb q.capacity (length q.queue)
      then (q, false)
      else (record q { queue = q.queue ++ item ∷ [] }, true)

  abbrev pub pop_from : List T → RecordQueue T → Popped T
  pop_from [] q = if q.closed then drained else blocked
  pop_from (x ∷ xs) q = batch (x ∷ xs) (record q { queue = [] })

  unfoldable pub pop_all : RecordQueue T → Popped T
  pop_all q = pop_from q.queue q

  unfoldable pub close : RecordQueue T → RecordQueue T
  close q = record q { closed = true }
