-- ===== src/Pipeline/Arrivals.antt =====
-- What becomes of the records that the callback of a recorder is given (include/common/
-- blob_recorder.hpp, row_recorder.hpp): the queue takes them in order, or they are dropped.
use kist_data_collector.Common.{
  Bool, ℕ, suc, ◌+◌, ◌<◌, ◌≡◌, refl, sym, ap, ◌∙◌, subst, List, [], ◌∷◌, ◌++◌, append-nil, arith,
  length, u64, u64_mod,
}
use kist_data_collector.Common.Int.{ℤ}
use kist_data_collector.RecordQueue
use kist_data_collector.Pipeline.{Writer, Recorder, offer}
use kist_data_collector.Pipeline.Threads.{
  Producer, idle, counted, refused, System, Items, Step, arrive, enqueue, refuse, drop, take_batch,
  write_one, flush_batch, leave, shut, join, Reach, here, next, launched,
}

-- `Less n xs ys`: `xs` is `ys` without `n` of its elements, in order.
pub data Less {A : Type 0} : ℕ → List A → List A → Type 0 where
  end : Less 0 [] []
  keep : {n : ℕ} {xs ys : List A} (x : A) → Less n xs ys → Less n (x ∷ xs) (x ∷ ys)
  skip : {n : ℕ} {xs ys : List A} (y : A) → Less n xs ys → Less (suc n) xs (y ∷ ys)

module _ {A : Type 0} where
  keep_last : {n : ℕ} {xs ys : List A} (x : A) → Less n xs ys → Less n (xs ++ x ∷ []) (ys ++ x ∷ [])
  keep_last x end = keep x end
  keep_last x (keep y l) = keep y (keep_last x l)
  keep_last x (skip y l) = skip y (keep_last x l)

  skip_last : {n : ℕ} {xs ys : List A} (x : A) → Less n xs ys → Less (suc n) xs (ys ++ x ∷ [])
  skip_last x end = skip x end
  skip_last x (keep y l) = keep y (skip_last x l)
  skip_last x (skip y l) = skip y (skip_last x l)

  pub Less-length : {n : ℕ} {xs ys : List A} → Less n xs ys → length ys ≡ length xs + n
  Less-length end = omega arith
  Less-length (keep x l) = omega (arith, Less-length l)
  Less-length (skip x l) = omega (arith, Less-length l)

  pub Less-none : {n : ℕ} {xs ys : List A} → Less n xs ys → n ≡ 0 → xs ≡ ys
  Less-none end h = refl
  Less-none (keep x l) h = ap (◌∷◌ x) (Less-none l h)
  Less-none (skip x l) h = absurd (omega arith)

module _ {W : Writer} where
  -- What a step brings the callback.
  abbrev pub brought : {s t : System W} {a p : Items W} → Step s a p t → Items W
  brought (arrive x h) = x ∷ []
  brought (enqueue x h e) = []
  brought (refuse x h e) = []
  brought (drop h) = []
  brought (take_batch w e) = []
  brought (write_one c w) = []
  brought (flush_batch c w) = []
  brought (leave w e) = []
  brought (shut h) = []
  brought (join c h k w) = []

  -- The records that the callback was called with, in order.
  abbrev pub arrived : {s t : System W} {a p : Items W} → Reach s a p t → Items W
  arrived here = []
  arrived (next l st) = arrived l ++ brought st

module _ {W : Writer} where
  -- The record that the callback has in hand, and whether it is to be counted as dropped.
  abbrev held : Producer W → Items W
  held idle = []
  held (counted x) = x ∷ []
  held refused = []

  abbrev owed : Producer W → ℕ
  owed idle = 0
  owed (counted x) = 0
  owed refused = 1

module _ {A : Type 0} where
  respelled : {n : ℕ} {xs xs' ys ys' : List A} → xs ≡ xs' → ys ≡ ys' → Less n xs ys → Less n xs' ys'
  respelled {n} {xs} {xs'} {ys} p q l = subst (Less n xs') q (subst (λ zs. Less n zs ys) p l)

  cons-inj : {x y : A} {xs ys : List A} → x ∷ xs ≡ y ∷ ys → (x ≡ y) × (xs ≡ ys)
  cons-inj e = (cc, cc)

  -- An element taken off the end counts as missing.
  lose_last :
      (x : A) {n : ℕ} {zs ys : List A}
      → Less n zs ys
      → (xs : List A) → zs ≡ xs ++ x ∷ []
      → Less (suc n) xs ys
  lose_last x end [] e = absurd (cc e)
  lose_last x end (y ∷ xs) e = absurd (cc e)
  lose_last x (keep z l) [] e = skip z (respelled (cons-inj e).1 refl l)
  lose_last x (keep {ys} z l) (y ∷ xs) e =
      respelled refl (ap (λ w. w ∷ ys) (sym (cons-inj e).0))
        (keep y (lose_last x l xs (cons-inj e).1))
  lose_last x (skip z l) xs e = skip z (lose_last x l xs e)

module _ {W : Writer} (d : ℕ) where
  -- Of the arrivals `xs`, `a` were accepted, in order, and the missing ones are counted.
  abbrev Taken : Items W → Items W → System W → Type 0
  Taken a xs s =
      (n : ℕ) × Less n (a ++ held s.producer) xs
      × (u64 (s.rec.dropped + owed s.producer) ≡ u64 (d + n))

  offer-dropped :
      (x : W.Item × ℤ) (r : Recorder W) {r' : Recorder W} {ok : Bool}
      → offer x r ≡ (r', ok)
      → r'.dropped ≡ r.dropped
  unfolding RecordQueue.push
  offer-dropped x r h = ground arith

  -- A step that leaves the callback and its counter alone.
  stays : (a xs : Items W) (s : System W) → Taken a xs s → Taken (a ++ []) (xs ++ []) s
  stays a xs s (n, l, e) = (
    n,
    respelled (ap (λ ys. ys ++ held s.producer) (sym (append-nil a))) (sym (append-nil xs)) l,
    e,
  )

  Step-Taken :
      (a xs : Items W) {s t : System W} {a' p' : Items W} (st : Step s a' p' t)
      → Taken a xs s
      → Taken (a ++ a') (xs ++ brought st) t
  Step-Taken a xs (arrive x h) (n, l, e) = (
    n,
    respelled (ap (λ q. (a ++ held q) ++ x ∷ []) h) refl (keep_last x l),
    ground (arith, e, h),
  )
  Step-Taken a xs (enqueue x h o) (n, l, e) = (
    n,
    respelled (ap (λ q. a ++ held q) h ∙ sym (append-nil _)) (sym (append-nil xs)) l,
    ground (arith, e, h, offer-dropped x _ o),
  )
  Step-Taken a xs (refuse x h o) (n, l, e) = (
    suc n,
    respelled (sym (append-nil a) ∙ sym (append-nil _)) (sym (append-nil xs))
        (lose_last x l a (ap (λ q. a ++ held q) h)),
    ground (arith, e, h, offer-dropped x _ o),
  )
  Step-Taken a xs (drop h) (n, l, e) = (
    n,
    respelled (ap (λ q. a ++ held q) h ∙ sym (append-nil _)) (sym (append-nil xs)) l,
    ground (arith, e, h),
  )
  Step-Taken a xs {s} (take_batch w o) v = stays a xs s v
  Step-Taken a xs {s} (write_one c w) v = stays a xs s v
  Step-Taken a xs {s} (flush_batch c w) v = stays a xs s v
  Step-Taken a xs {s} (leave w o) v = stays a xs s v
  Step-Taken a xs {s} (shut h) v = stays a xs s v
  Step-Taken a xs {s} (join c h k w) v = stays a xs s v

  Reach-Taken :
      {r : Recorder W} {a p : Items W} {s : System W} (l : Reach (launched r) a p s)
      → r.dropped ≡ d
      → Taken a (arrived l) s
  Reach-Taken here h = (0, end, ground (arith, h))
  Reach-Taken (next {a} l st) h = Step-Taken a (arrived l) st (Reach-Taken l h)

module _ {W : Writer} {r : Recorder W} {a p : Items W} {s : System W} where
  -- Once the callback has returned, the records that the queue accepted are those that the callback
  -- was given without some, in order, and `dropped` has counted up by the number of these.
  pub Reach-arrived :
      (l : Reach (launched r) a p s)
      → s.producer ≡ idle
      → (n : ℕ) × Less n a (arrived l) × (u64 s.rec.dropped ≡ u64 (r.dropped + n))
  Reach-arrived l i =
      let (n, rest, e) = Reach-Taken r.dropped l refl in
      (n, respelled (ap (λ q. a ++ held q) i ∙ append-nil a) refl rest, ground (arith, e, i))

  -- If `dropped` was 0 and is 0, and fewer than 2^64 records came, the queue has accepted them all.
  pub Reach-all :
      (l : Reach (launched r) a p s)
      → s.producer ≡ idle
      → r.dropped ≡ 0
      → s.rec.dropped ≡ 0
      → length (arrived l) < u64_mod
      → a ≡ arrived l
  Reach-all l i none_before none_now few =
      let (n, rest, e) = Reach-arrived l i in Less-none rest (omega (arith, e, Less-length rest))
