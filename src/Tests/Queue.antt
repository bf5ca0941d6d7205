-- ===== src/Tests/Queue.antt =====
-- The queue's theorems at short histories.
use kist_data_collector.Common.{◌≡◌, refl, ℕ, [], ◌∷◌, true, arith}
use kist_data_collector.RecordQueue.{initial, pop_all, drained}
use kist_data_collector.RecordQueue.History.{
  Log, Inv, run, opened, pushes, pops, run-opened-Inv, run-closed,
}

run-opened-Inv_example :
    Inv {T = ℕ} 2 (run (opened 2 initial) (pushes 7 ∷ pushes 8 ∷ pushes 9 ∷ pops ∷ []))
run-opened-Inv_example = run-opened-Inv 2 initial (pushes 7 ∷ pushes 8 ∷ pushes 9 ∷ pops ∷ [])

-- One record is queued, and the queue is closed.
abbrev closed_log : Log ℕ
closed_log = record {
  state = record { queue = 7 ∷ []; capacity = 2; closed = true };
  accepted = 7 ∷ [];
  delivered = [];
}

run-closed_example :
    ((run closed_log (pops ∷ pushes 8 ∷ pops ∷ [])).accepted ≡ 7 ∷ [])
    × ((run closed_log (pops ∷ pushes 8 ∷ pops ∷ [])).delivered ≡ 7 ∷ [])
    × (pop_all (run closed_log (pops ∷ pushes 8 ∷ pops ∷ [])).state ≡ drained)
run-closed_example =
    run-closed 2 closed_log (pushes 8 ∷ pops ∷ [])
      (record { fifo = refl; kept = refl; bounded = omega arith }) refl
