-- ===== src/Pipeline/Accounting.antt =====
-- The loss accounting of a recorder (include/common/blob_recorder.hpp, row_recorder.hpp): every
-- record that the sensor delivered is counted once more, as dropped, written or refused by the file
-- system, or is still on its way. The counters are uint64_t and wrap.
use kist_data_collector.Common.{
  ℕ, ◌+◌, ◌≡◌, [], ◌∷◌, ◌++◌, append-nil, arith, length, length-append, u64,
}
use kist_data_collector.Common.Int.{ℤ}
use kist_data_collector.RecordQueue
use kist_data_collector.RecordQueue.{pop_all, batch, drained}
use kist_data_collector.RecordQueue.Pop.{pop_all-batch}
use kist_data_collector.Pipeline.{Writer, Recorder}
use kist_data_collector.Pipeline.Threads.{
  Producer, idle, counted, refused, gone, System, Items, Step, arrive, enqueue, refuse, drop,
  take_batch, write_one, flush_batch, leave, shut, join, Reach, here, next, launched, in_hand,
}
use kist_data_collector.Pipeline.Order.{pending, Reach-IsLeft}

-- A writer that counts each record once: `handled` is written plus write_errors.
pub record Counts (W : Writer) : Type 0 where
  pub handled : W.Out → ℕ
  pub handled-write :
      (c : W.Choice) (x : W.Item × ℤ) (o : W.Out)
      → u64 (handled (W.write_item c x o)) ≡ u64 (handled o + 1)
  pub handled-flush : (c : W.Choice) (o : W.Out) → handled (W.flush_out c o) ≡ handled o
  pub handled-close : (c : W.Choice) (o : W.Out) → handled (W.close_out c o) ≡ handled o

module _ {W : Writer} (C : Counts W) where
  open C use {handled, handled-write, handled-flush, handled-close}

  -- Records that the callback thread has counted and not yet queued or dropped.
  abbrev pub in_push : Producer W → ℕ
  in_push idle = 0
  in_push (counted x) = 1
  in_push refused = 1

  abbrev pub IsBalanced : System W → Type 0
  IsBalanced s =
      s.rec.received
      ≡ u64 (s.rec.dropped + handled s.rec.out + length (pending s) + in_push s.producer)

  Step-IsBalanced : {s t : System W} {a p : Items W} → Step s a p t → IsBalanced s → IsBalanced t
  unfolding RecordQueue.push RecordQueue.close
  Step-IsBalanced (arrive x h) v = ground arith
  Step-IsBalanced {s} (enqueue x h e) v = ground (
    arith,
    length-append (in_hand s.writer) s.rec.queue.queue,
    length-append s.rec.queue.queue (x ∷ []),
    length-append (in_hand s.writer) (s.rec.queue.queue ++ x ∷ []),
  )
  Step-IsBalanced {s} (refuse x h e) v = ground arith
  Step-IsBalanced (drop h) v = ground arith
  Step-IsBalanced {s} (take_batch w e) v =
      ground (arith, pop_all-batch s.rec.queue e, append-nil s.rec.queue.queue)
  Step-IsBalanced {s} (write_one {x} c w) v = ground (arith, handled-write c x s.rec.out)
  Step-IsBalanced {s} (flush_batch c w) v = ground (arith, handled-flush c s.rec.out)
  Step-IsBalanced (leave w e) v = ground arith
  Step-IsBalanced (shut h) v = v
  Step-IsBalanced {s} (join c h k w) v = ground (arith, handled-close c s.rec.out)

  -- If the counters balance when the recorder is opened, then under every interleaving `received`
  -- is, modulo 2^64, what was dropped, written or refused by the file system, what waits in the
  -- queue or the writer's batch, and what the callback thread has still in hand.
  pub Reach-IsBalanced :
      {r : Recorder W} {a p : Items W} {s : System W}
      → IsBalanced (launched r)
      → Reach (launched r) a p s
      → IsBalanced s
  Reach-IsBalanced b here = b
  Reach-IsBalanced b (next l st) = Step-IsBalanced st (Reach-IsBalanced b l)

  -- So when the writer has ended and the callback thread is outside `push`, nothing is unaccounted
  -- for: each delivered record was dropped, written or refused.
  pub Reach-settled :
      {r : Recorder W} {a p : Items W} {s : System W}
      → IsBalanced (launched r)
      → Reach (launched r) a p s
      → s.writer ≡ gone
      → s.producer ≡ idle
      → s.rec.received ≡ u64 (s.rec.dropped + handled s.rec.out)
  Reach-settled {s} b l g i = ground (arith, Reach-IsBalanced b l, Reach-IsLeft l g)
