-- ===== src/Pipeline/Output.antt =====
-- What a recorder's files and counters hold is decided by the records written, whatever the
-- interleaving (include/common/blob_recorder.hpp, row_recorder.hpp): an invariant of the writer's
-- half that its three operations keep holds in every reachable state.
use kist_data_collector.Common.{sym, [], ◌∷◌, ◌++◌, append-nil, subst}
use kist_data_collector.Common.Int.{ℤ}
use kist_data_collector.Pipeline.{Writer, Recorder}
use kist_data_collector.Pipeline.Order.{offer-out}
use kist_data_collector.Pipeline.Threads.{
  System, Items, Step, arrive, enqueue, refuse, drop, take_batch, write_one, flush_batch, leave,
  shut, join, Reach, here, next, launched,
}

-- `Holds p o`: what the output is to be when the records `p` have been written.
pub record Describes (W : Writer) (Holds : Items W → W.Out → Type 0) : Type 0 where
  pub on_write :
      (c : W.Choice) (p : Items W) (x : W.Item × ℤ) (o : W.Out)
      → Holds p o
      → Holds (p ++ x ∷ []) (W.write_item c x o)
  pub on_flush : (c : W.Choice) (p : Items W) (o : W.Out) → Holds p o → Holds p (W.flush_out c o)
  pub on_close : (c : W.Choice) (p : Items W) (o : W.Out) → Holds p o → Holds p (W.close_out c o)

module _ {W : Writer} (Holds : Items W → W.Out → Type 0) (D : Describes W Holds) where
  kept : (p : Items W) {o : W.Out} → Holds p o → Holds (p ++ []) o
  kept p {o} h = subst (λ q. Holds q o) (sym (append-nil p)) h

  step_holds :
      {s t : System W} {a p' : Items W} (p : Items W)
      → Step s a p' t
      → Holds p s.rec.out
      → Holds (p ++ p') t.rec.out
  step_holds {s} p (arrive x e) h = kept p h
  step_holds {s} p (enqueue x e f) h = kept p (subst (Holds p) (sym (offer-out x s.rec f)) h)
  step_holds {s} p (refuse x e f) h = kept p (subst (Holds p) (sym (offer-out x s.rec f)) h)
  step_holds {s} p (drop e) h = kept p h
  step_holds {s} p (take_batch e f) h = kept p h
  step_holds {s} p (write_one {x} c e) h = D.on_write c p x s.rec.out h
  step_holds {s} p (flush_batch c e) h = kept p (D.on_flush c p s.rec.out h)
  step_holds {s} p (leave e f) h = kept p h
  step_holds {s} p (shut e) h = kept p h
  step_holds {s} p (join c e f g) h = kept p (D.on_close c p s.rec.out h)

  pub Reach-Holds :
      {r : Recorder W} {a p : Items W} {s : System W}
      → Holds [] r.out
      → Reach (launched r) a p s
      → Holds p s.rec.out
  Reach-Holds h here = h
  Reach-Holds h (next {p} l st) = step_holds p st (Reach-Holds h l)
