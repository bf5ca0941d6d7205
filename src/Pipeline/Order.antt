-- ===== src/Pipeline/Order.antt =====
-- No record is lost, doubled or reordered between `push` and the writer (the hand-off contract of
-- include/common/record_queue.hpp, as both recorders use it), under every interleaving.
use kist_data_collector.Common.{
  ◌≡◌, refl, sym, ap, ◌∙◌, [], ◌∷◌, ◌++◌, append-nil, append_assoc, Bool, true, false, arith,
}
use kist_data_collector.Common.Int.{ℤ}
use kist_data_collector.RecordQueue
use kist_data_collector.RecordQueue.{RecordQueue, pop_all, batch, drained}
use kist_data_collector.RecordQueue.Pop.{pop_all-batch, pop_all-drained}
use kist_data_collector.Pipeline.{Writer, Recorder, offer}
use kist_data_collector.Pipeline.Threads.{
  gone, System, Items, Step, arrive, enqueue, refuse, drop, take_batch, write_one, flush_batch,
  leave, shut, join, Reach, here, next, launched, in_hand,
}

module _ {W : Writer} where
  -- What is accepted and not yet written.
  abbrev pub pending : System W → Items W
  pending s = in_hand s.writer ++ s.rec.queue.queue

  offer-true :
      (x : W.Item × ℤ) (r : Recorder W) {r' : Recorder W}
      → offer x r ≡ (r', true)
      → r'.queue.queue ≡ r.queue.queue ++ x ∷ []
  unfolding RecordQueue.push
  offer-true x r h = ground arith

  offer-false :
      (x : W.Item × ℤ) (r : Recorder W) {r' : Recorder W}
      → offer x r ≡ (r', false)
      → r'.queue ≡ r.queue
  unfolding RecordQueue.push
  offer-false x r h = ground arith

  -- `queue_.push` touches the queue alone.
  pub offer-out :
      (x : W.Item × ℤ) (r : Recorder W) {r' : Recorder W} {ok : Bool}
      → offer x r ≡ (r', ok)
      → r'.out ≡ r.out
  unfolding RecordQueue.push
  offer-out x r h = ground arith

  Step-pending : {s t : System W} {a p : Items W} → Step s a p t → pending s ++ a ≡ p ++ pending t
  unfolding RecordQueue.close
  Step-pending {s} (arrive x h) = append-nil (pending s)
  Step-pending {s} (enqueue x h e) =
      append_assoc (in_hand s.writer) s.rec.queue.queue (x ∷ [])
      ∙ ap (◌++◌ (in_hand s.writer)) (sym (offer-true x s.rec e))
  Step-pending {s} (refuse x h e) =
      append-nil (pending s)
      ∙ ap (λ q. in_hand s.writer ++ RecordQueue.queue q) (sym (offer-false x s.rec e))
  Step-pending {s} (drop h) = append-nil (pending s)
  Step-pending {s} (take_batch w e) =
      ground
        (arith, pop_all-batch s.rec.queue e, append-nil (pending s), append-nil s.rec.queue.queue)
  Step-pending {s} (write_one c w) = ground (arith, append-nil (pending s))
  Step-pending {s} (flush_batch c w) = ground (arith, append-nil (pending s))
  Step-pending {s} (leave w e) = ground (arith, append-nil (pending s))
  Step-pending {s} (shut h) = append-nil (pending s)
  Step-pending {s} (join c h k w) = append-nil (pending s)

  -- From the moment that the recorder is opened, the records that the queue accepted are those
  -- written, then those in the writer's batch, then those queued, in the order of acceptance.
  pub Reach-order :
      {r : Recorder W} {a p : Items W} {s : System W}
      → r.queue.queue ≡ []
      → Reach (launched r) a p s
      → a ≡ p ++ pending s
  Reach-order e here = sym e
  Reach-order e (next {a} {p} {a'} {p'} {t} {u} l st) = rw (Reach-order e l) (
      append_assoc p (pending t) a'
      ∙ ap (◌++◌ p) (Step-pending st)
      ∙ sym (append_assoc p p' (pending u)))

  -- A writer that has left its loop has left nothing behind, and nothing can come.
  abbrev pub IsLeft : System W → Type 0
  IsLeft s = s.writer ≡ gone → (s.rec.queue.queue ≡ []) × (s.rec.queue.closed ≡ true)

  offer-closed :
      (x : W.Item × ℤ) (r : Recorder W) {r' : Recorder W}
      → offer x r ≡ (r', true)
      → r.queue.closed ≡ false
  unfolding RecordQueue.push
  offer-closed x r h = ground arith

  Step-IsLeft : {s t : System W} {a p : Items W} → Step s a p t → IsLeft s → IsLeft t
  unfolding RecordQueue.close
  Step-IsLeft (arrive x h) v g = v g
  Step-IsLeft {s} (enqueue x h e) v g = ground (arith, v g, offer-closed x s.rec e)
  Step-IsLeft {s} (refuse x h e) v g = ground (arith, v g, offer-false x s.rec e)
  Step-IsLeft (drop h) v g = v g
  Step-IsLeft (take_batch w e) v g = ground arith
  Step-IsLeft (write_one c w) v g = ground arith
  Step-IsLeft (flush_batch c w) v g = ground arith
  Step-IsLeft {s} (leave w e) v g = pop_all-drained s.rec.queue e
  Step-IsLeft (shut h) v g = ((v g).0, refl)
  Step-IsLeft (join c h k w) v g = v g

  pub Reach-IsLeft :
      {r : Recorder W} {a p : Items W} {s : System W} → Reach (launched r) a p s → IsLeft s
  Reach-IsLeft here g = ground arith
  Reach-IsLeft (next l st) g = Step-IsLeft st (Reach-IsLeft l) g

  -- Once the writer thread has ended, every record that the queue ever accepted has been written,
  -- once and in the order of acceptance; the queue is closed.
  pub Reach-complete :
      {r : Recorder W} {a p : Items W} {s : System W}
      → r.queue.queue ≡ []
      → Reach (launched r) a p s
      → s.writer ≡ gone
      → (a ≡ p) × (s.rec.queue.closed ≡ true)
  Reach-complete {p} {s} e l g =
      let (empty, closed) = Reach-IsLeft l g in
      (Reach-order e l ∙ ground (arith, append-nil p), closed)
