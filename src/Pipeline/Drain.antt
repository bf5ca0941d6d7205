-- ===== src/Pipeline/Drain.antt =====
-- `close` ends (include/common/blob_recorder.hpp, row_recorder.hpp): once the queue is closed, however
-- the writer thread runs, it comes to the end of `run` with everything pending written.
use kist_data_collector.Common.{
  ℕ, suc, ◌+◌, ◌≡◌, ◌≢◌, refl, sym, ap, ◌∙◌, List, [], ◌∷◌, ◌++◌, append-nil, append_assoc, Bool,
  true, false, arith, length, subst,
}
use kist_data_collector.RecordQueue.{RecordQueue, batch, pop_all, pop_from}
use kist_data_collector.RecordQueue.Pop.{pop_all-drained}
use kist_data_collector.Pipeline.{Writer, Recorder}
use kist_data_collector.Pipeline.Threads.{
  Pc, waiting, writing, gone, System, Items, Step, arrive, enqueue, refuse, drop, take_batch,
  write_one, flush_batch, leave, shut, join, Reach, next, launched,
}
use kist_data_collector.Pipeline.Order.{Reach-complete}

-- The steps that a waiting writer has to make on a closed queue: it takes what is there, writes each
-- record, flushes, and leaves.
abbrev pub left_waiting : {A : Type 0} → List A → ℕ
left_waiting [] = 1
left_waiting (x ∷ xs) = length xs + 4

-- What `pop_all` leaves to be made.
left-popped :
    {A : Type 0} (queue : List A) (q0 : RecordQueue A) {b : List A} {q : RecordQueue A}
    → pop_from queue q0 ≡ batch b q
    → (q.closed ≡ q0.closed) × (left_waiting queue ≡ suc (suc (length b) + left_waiting q.queue))
left-popped [] q0 h = absurd (ground (arith, h))
left-popped (x ∷ xs) q0 {b} {q} h =
    let same : x ∷ xs ≡ b = cc in
    let rest : record q0 { queue = [] } ≡ q = cc in rw (sym same, sym rest) (refl, omega arith)

module _ {W : Writer} where
  -- The steps of the writer thread.
  abbrev pub is_own : {s t : System W} {a p : Items W} → Step s a p t → Bool
  is_own (arrive x h) = false
  is_own (enqueue x h e) = false
  is_own (refuse x h e) = false
  is_own (drop h) = false
  is_own (take_batch w e) = true
  is_own (write_one c w) = true
  is_own (flush_batch c w) = true
  is_own (leave w e) = true
  is_own (shut h) = false
  is_own (join c h k w) = false

  -- `OwnRun s n q t`: `n` steps of the writer thread lead from `s` to `t`, and write `q`.
  pub data OwnRun (s : System W) : ℕ → Items W → System W → Type 0 where
    start : OwnRun s 0 [] s
    then_ :
        {n : ℕ} {q a x : Items W} {t u : System W} (st : Step t a x u)
        → is_own st ≡ true
        → OwnRun s n q t
        → OwnRun s (suc n) (q ++ x) u

  abbrev pub left_of : Pc W → Items W → ℕ
  left_of waiting queue = left_waiting queue
  left_of (writing xs) queue = suc (length xs) + left_waiting queue
  left_of gone queue = 0

  abbrev pub steps_left : System W → ℕ
  steps_left s = left_of s.writer s.rec.queue.queue

  -- An own step of the writer on a closed queue is one of those that it has to make.
  Step-left :
      {s u : System W} {a x : Items W} (st : Step s a x u)
      → is_own st ≡ true
      → s.rec.queue.closed ≡ true
      → (a ≡ []) × (u.rec.queue.closed ≡ true) × (steps_left s ≡ suc (steps_left u))
  unfolding pop_all
  Step-left (arrive x h) o c = absurd (cc o)
  Step-left (enqueue x h e) o c = absurd (cc o)
  Step-left (refuse x h e) o c = absurd (cc o)
  Step-left (drop h) o c = absurd (cc o)
  Step-left {s} (take_batch w e) o c =
      let (closed, one) = left-popped s.rec.queue.queue s.rec.queue e in
      (refl, closed ∙ c, rw (w) one)
  Step-left {s} (write_one d w) o c = (refl, c, rw (w) (omega arith))
  Step-left {s} (flush_batch d w) o c = (refl, c, rw (w) (omega arith))
  Step-left {s} (leave w e) o c = (refl, c, rw (w, (pop_all-drained s.rec.queue e).0) refl)
  Step-left (shut h) o c = absurd (cc o)
  Step-left (join d h k w) o c = absurd (cc o)

  -- Unless it has ended, the writer can make a step.
  Step-next :
      (s : System W) (w : Pc W) (queue : Items W) (c : W.Choice)
      → s.writer ≡ w
      → s.rec.queue.queue ≡ queue
      → s.rec.queue.closed ≡ true
      → w ≢ gone
      → (x : Items W) × (u : System W) × (st : Step s [] x u) × (is_own st ≡ true)
  unfolding pop_all
  Step-next s waiting [] c w e h k = (_, _, leave w (rw (e, pop_from) (ground (arith, h))), refl)
  Step-next s waiting (x ∷ xs) c w e h k = (
    _,
    _,
    take_batch {b = x ∷ xs} {q = record s.rec.queue { queue = [] }} w (rw (e, pop_from) refl),
    refl,
  )
  Step-next s (writing []) queue c w e h k = (_, _, flush_batch c w, refl)
  Step-next s (writing (x ∷ xs)) queue c w e h k = (_, _, write_one c w, refl)
  Step-next s gone queue c w e h k = absurd (k refl)

  OwnRun-left :
      {s t : System W} {n : ℕ} {q : Items W}
      → OwnRun s n q t
      → s.rec.queue.closed ≡ true
      → (t.rec.queue.closed ≡ true) × (n + steps_left t ≡ steps_left s)
  OwnRun-left start c = (c, omega arith)
  OwnRun-left (then_ st o run) c =
      let (closed, before) = OwnRun-left run c in
      let (_, still, one) = Step-left st o closed in (still, omega (arith, before, one))

  -- The states that it comes to are reachable, and nothing is accepted on the way.
  OwnRun-Reach :
      {r : Recorder W} {a p : Items W} {s t : System W} {n : ℕ} {q : Items W}
      → Reach (launched r) a p s
      → s.rec.queue.closed ≡ true
      → OwnRun s n q t
      → Reach (launched r) a (p ++ q) t
  OwnRun-Reach {r} {a} {p} {s = s} l c start =
      subst (λ p'. Reach (launched r) a p' s) (sym (append-nil p)) l
  OwnRun-Reach {r} {a} {p} {t = u} l c (then_ {q = q} {x = x} st o run) =
      let none_accepted = (Step-left st o (OwnRun-left run c).0).0 in
      subst (λ p'. Reach (launched r) a p' u) (append_assoc p q x)
        (subst (λ a'. Reach (launched r) a' ((p ++ q) ++ x) u)
          (ap (◌++◌ a) none_accepted ∙ append-nil a) (next (OwnRun-Reach l c run) st))

  -- From every reachable state whose queue has been closed, however the writer thread runs and
  -- whatever the file system answers it: after `n` of its steps it has exactly `n` fewer to make; it
  -- can make a step unless it has ended; and when it has ended it has written every record that was
  -- accepted, in order. So each of its runs ends, after `steps_left` steps.
  pub Reach-drains :
      {r : Recorder W} {a p : Items W} {s : System W}
      → r.queue.queue ≡ []
      → Reach (launched r) a p s
      → s.rec.queue.closed ≡ true
      → {n : ℕ} {q : Items W} {t : System W} → OwnRun s n q t
      → (n + steps_left t ≡ steps_left s)
        × (t.writer ≢ gone
            → (c : W.Choice)
            → (x : Items W) × (u : System W) × (st : Step t [] x u) × (is_own st ≡ true))
        × (t.writer ≡ gone → a ≡ p ++ q)
  Reach-drains {s} e l h {t} run =
      let (closed, left) = OwnRun-left run h in
      (
        left,
        λ k c. Step-next t t.writer t.rec.queue.queue c refl refl closed k,
        λ g. (Reach-complete e (OwnRun-Reach l h run) g).0,
      )
