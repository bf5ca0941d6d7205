-- ===== src/Pipeline/Threads.antt =====
-- The threads of one recorder, interleaved in any order: the sensor callback in `push`, the writer
-- in `run`, and the owner in `close` (include/common/blob_recorder.hpp, row_recorder.hpp). Each
-- step is one access to the shared queue or counters; the files belong to the writer alone.
use kist_data_collector.Common.{◌≡◌, List, [], ◌∷◌, ◌++◌, true, false}
use kist_data_collector.Common.Int.{ℤ}
use kist_data_collector.RecordQueue
use kist_data_collector.RecordQueue.{RecordQueue, pop_all, batch, drained}
use kist_data_collector.Pipeline.{Writer, Recorder, count_received, count_dropped, offer}

-- Where the callback thread stands in `push`.
pub data Producer (W : Writer) : Type 0 where
  idle : Producer W
  counted : W.Item × ℤ → Producer W
  refused : Producer W

-- Where the writer thread stands in `run`: at `pop_all`, in a batch with these records left, or
-- behind the loop.
pub data Pc (W : Writer) : Type 0 where
  waiting : Pc W
  writing : List (W.Item × ℤ) → Pc W
  gone : Pc W

pub record System (W : Writer) : Type 0 where
  pub rec : Recorder W
  pub producer : Producer W
  pub writer : Pc W

-- Records with their arrival times.
abbrev pub Items : Writer → Type 0
Items W = List (W.Item × ℤ)

module _ {W : Writer} where
  -- A step with the records that it puts into the queue and those that it writes.
  pub data Step (s : System W) : Items W → Items W → System W → Type 0 where
    arrive :
        (x : W.Item × ℤ)
        → s.producer ≡ idle
        → Step s [] [] (record s { rec = count_received s.rec; producer = counted x })
    enqueue :
        {r : Recorder W} (x : W.Item × ℤ)
        → s.producer ≡ counted x
        → offer x s.rec ≡ (r, true)
        → Step s (x ∷ []) [] (record s { rec = r; producer = idle })
    refuse :
        {r : Recorder W} (x : W.Item × ℤ)
        → s.producer ≡ counted x
        → offer x s.rec ≡ (r, false)
        → Step s [] [] (record s { rec = r; producer = refused })
    drop :
        s.producer ≡ refused
        → Step s [] [] (record s { rec = count_dropped s.rec; producer = idle })
    take_batch :
        {b : Items W} {q : RecordQueue (W.Item × ℤ)}
        → s.writer ≡ waiting
        → pop_all s.rec.queue ≡ batch b q
        → Step s [] [] (record s { rec = record s.rec { queue = q }; writer = writing b })
    write_one :
        {x : W.Item × ℤ} {rest : Items W} (c : W.Choice)
        → s.writer ≡ writing (x ∷ rest)
        → Step s [] (x ∷ []) (record s {
          rec = record s.rec { out = W.write_item c x s.rec.out };
          writer = writing rest;
        })
    flush_batch :
        (c : W.Choice)
        → s.writer ≡ writing []
        → Step s [] []
            (record s { rec = record s.rec { out = W.flush_out c s.rec.out }; writer = waiting })
    leave :
        s.writer ≡ waiting
        → pop_all s.rec.queue ≡ drained
        → Step s [] [] (record s { writer = gone })
    shut :
        s.rec.joinable ≡ true
        → Step s [] [] (record s { rec = record s.rec { queue = RecordQueue.close s.rec.queue } })
    join :
        (c : W.Choice)
        → s.rec.joinable ≡ true
        → s.rec.queue.closed ≡ true
        → s.writer ≡ gone
        → Step s [] []
            (record s { rec = record s.rec { out = W.close_out c s.rec.out; joinable = false } })

  -- The states reached from `s`, with the records accepted and written on the way, in order.
  pub data Reach (s : System W) : Items W → Items W → System W → Type 0 where
    here : Reach s [] [] s
    next :
        {a p a' p' : Items W} {t u : System W}
        → Reach s a p t
        → Step t a' p' u
        → Reach s (a ++ a') (p ++ p') u

  -- What `open` leaves behind when the files could be opened: an empty queue, and the writer thread
  -- at the head of its loop.
  abbrev pub launched : Recorder W → System W
  launched r = record { rec = r; producer = idle; writer = waiting }

  -- The records that the writer holds.
  abbrev pub in_hand : Pc W → Items W
  in_hand waiting = []
  in_hand (writing xs) = xs
  in_hand gone = []
