-- ===== src/Tests/Subscriber.antt =====
-- The take thread with a valid and an invalid sample, one that lands behind its end, and one behind the last sweep.
use kist_data_collector.Common.{ℕ, refl, [], ◌∷◌, List, true, false, arith}
use kist_data_collector.Subscriber.{
  Sample, Subscriber, TakeReach, opened, then_, arrives, takes, leaves, signals, joins, sweeps,
  closes, drain_reader, closed,
}

abbrev sample : ℕ → Sample ℕ
sample n = record { valid = true; msg = n }

abbrev disposed : Sample ℕ
disposed = record { valid = false; msg = 0 }

abbrev taken : List (Sample ℕ)
taken = sample 1 ∷ disposed ∷ sample 2 ∷ sample 3 ∷ []

abbrev swept : Subscriber (λ (n : ℕ). n)
swept = record {
  reader = sample 3 ∷ [];
  frames = 1 ∷ 2 ∷ [];
  running = false;
  joinable = false;
  stage = closed;
}

unfoldable stopped : TakeReach (λ (n : ℕ). n) taken swept
unfolding drain_reader
stopped =
    then_
      (then_
        (then_
          (then_
            (then_
              (then_
                (then_
                  (then_
                    (then_ (then_ opened (arrives (sample 1) (λ h. ground (arith, h))))
                      (arrives disposed (λ h. ground (arith, h))))
                    (takes refl))
                  (signals refl))
                (leaves refl refl))
              (joins refl refl))
            (arrives (sample 2) (λ h. ground (arith, h))))
          (sweeps refl))
        (arrives (sample 3) (λ h. ground (arith, h))))
      (closes refl)
