-- ===== src/Tests/Threads.antt =====
-- One run of a recorder's threads (include/common/blob_recorder.hpp, row_recorder.hpp): two records
-- arrive, are written as one batch and flushed, the queue is closed and the writer leaves.
use kist_data_collector.Common.{refl, [], ◌∷◌, true, false}
use kist_data_collector.Common.Int.{ℤ}
use kist_data_collector.RecordQueue
use kist_data_collector.RecordQueue.{pop_all}
use kist_data_collector.Pipeline.{Writer, Recorder}
use kist_data_collector.Pipeline.Threads.{
  System, Reach, here, next, arrive, enqueue, take_batch, write_one, flush_batch, shut, leave,
  launched,
}

module _ {W : Writer} where
  -- A recorder that has just been opened, with room for four records.
  abbrev pub ready : Recorder W → Recorder W
  ready r = record r {
    queue = record { queue = []; capacity = 4; closed = false };
    joinable = true;
  }

  unfoldable pub both_left :
      (r : Recorder W) (x y : W.Item × ℤ) (c : W.Choice)
      → (s : System W) × Reach (launched (ready r)) (x ∷ y ∷ []) (x ∷ y ∷ []) s
  unfolding RecordQueue.push RecordQueue.close pop_all
  both_left r x y c = (
    _,
    next
        (next
          (next
            (next
              (next
                (next
                  (next
                    (next (next (next here (arrive x refl)) (enqueue x refl refl)) (arrive y refl))
                    (enqueue y refl refl))
                  (take_batch refl refl))
                (write_one c refl))
              (write_one c refl))
            (flush_batch c refl))
          (shut refl))
        (leave refl refl),
  )
