-- ===== src/Tests/Recording.antt =====
-- The recorders' theorems at a recording of two frames, or two rows.
use kist_data_collector.Common.{
  ◌+◌, u64, length, ℕ, ◌≡◌, ◌≢◌, refl, List, [], ◌∷◌, ◌++◌, true, false, arith,
}
use kist_data_collector.Common.Text.{text, decimal}
use kist_data_collector.Common.Int.{ℤ, pos}
use kist_data_collector.RecordQueue
use kist_data_collector.RecordQueue.{open_queue, pop_all}
use kist_data_collector.Stream.{contents, keep, refuse, write, flush, close_stream}
use kist_data_collector.Pipeline.{Recorder}
use kist_data_collector.Pipeline.Threads.{
  System, Items, gone, Reach, here, next, arrive, enqueue, refuse, drop, launched, Step, shut,
  take_batch, write_one, flush_batch, leave,
}
use kist_data_collector.Pipeline.Arrivals.{Less, Reach-arrived}
use kist_data_collector.Pipeline.Drain.{OwnRun, start, then_, is_own, steps_left, Reach-drains}
use kist_data_collector.Blob.{
  FrameType, Fates, write_frame, track, count, blob_writer, open_blob, fresh_blob,
}
use kist_data_collector.Blob.Sink.{fresh_sink, open_sink, append, flush_sink, close_sink}
use kist_data_collector.Blob.Index.{Slices}
use kist_data_collector.Blob.Losses.{blob_settled, blob_recorded}
use kist_data_collector.Blob.Gaps.{wire_gaps-exact}
use kist_data_collector.Blob.Faults.{flush_uncounted, reopen_misplaces}
use kist_data_collector.Row.{RecordType, write_row, count_row, row_writer, open_rows, fresh_rows}
use kist_data_collector.Row.Losses.{rows_recorded}
use kist_data_collector.Tests.Threads.{both_left, ready}

-- Frames of a sequence number and bytes, with the number as their index row.
abbrev frames : FrameType
frames = record {
  Frame = ℕ × List ℕ;
  sequence = λ f. f.0;
  payload = λ f. f.1;
  row = λ f t. decimal f.0;
}

abbrev kept : Fates
kept = record { on_data = keep; on_index = keep }

abbrev first : (ℕ × List ℕ) × ℤ
first = ((5, 10 ∷ 20 ∷ []), pos 100)

abbrev second : (ℕ × List ℕ) × ℤ
second = ((8, 30 ∷ []), pos 200)

-- The recorder behind its first `open`.
abbrev opened : Recorder (blob_writer frames)
opened = record (ready (fresh_blob frames)) {
  out = record (fresh_blob frames).out {
    sink = record {
      data_file = record { disk = []; buffer = []; good = true; is_open = true };
      index_file = record { disk = []; buffer = b'h' ∷ b'\n' ∷ []; good = true; is_open = true };
      offset = 0;
    };
  };
}

abbrev ended : System (blob_writer frames)
ended = (both_left opened first second kept).0

blob_recorded_example :
    ((close_sink keep keep ended.rec.out.sink).data_file.disk ≡ 10 ∷ 20 ∷ 30 ∷ [])
    × ((close_sink keep keep ended.rec.out.sink).index_file.disk ≡ text "h\n5,0,2\n8,2,1\n")
    × Slices frames (10 ∷ 20 ∷ 30 ∷ []) 0 (first ∷ second ∷ [])
unfolding both_left open_blob write_frame open_queue close_sink flush_sink append track count write
    flush close_stream open_sink decimal
blob_recorded_example =
    blob_recorded frames keep (text "h") 4 kept refl (both_left opened first second kept).1 refl
      (omega arith) refl refl

blob_settled_example : ended.rec.received ≡ 2
unfolding both_left open_blob write_frame open_queue append track count write open_sink flush_sink
    flush
blob_settled_example =
    blob_settled frames keep (text "h") 4 refl (both_left opened first second kept).1 refl refl

wire_gaps-exact_example : ended.rec.out.wire_gaps ≡ 2
unfolding both_left open_blob write_frame open_queue append track count write open_sink flush_sink
    flush
wire_gaps-exact_example =
    wire_gaps-exact frames keep (text "h") 4 5 (8 ∷ []) refl (both_left opened first second kept).1
      refl (omega arith) (omega arith, omega arith, tt)

-- The queue is closed while two records wait in it.
unfoldable closed_behind :
    (s : System (blob_writer frames)) × Reach (launched (ready opened)) (first ∷ second ∷ []) [] s
unfolding RecordQueue.push RecordQueue.close
closed_behind = (
  _,
  next
      (next
        (next (next (next here (arrive first refl)) (enqueue first refl refl)) (arrive second refl))
        (enqueue second refl refl))
      (shut refl),
)

-- From there the writer takes the batch, writes both records, flushes and leaves.
unfoldable drained_run :
    (t : System (blob_writer frames)) × OwnRun closed_behind.0 5 (first ∷ second ∷ []) t
unfolding closed_behind RecordQueue.push RecordQueue.close pop_all
drained_run = (
  _,
  then_ (leave refl refl) refl (
      then_ (flush_batch kept refl) refl (
        then_ (write_one kept refl) refl
          (then_ (write_one kept refl) refl (then_ (take_batch refl refl) refl start)))),
)

Reach-drains_example :
    (5 + steps_left drained_run.0 ≡ 5)
    × (drained_run.0.writer ≢ gone
        → Fates
        → (x : Items (blob_writer frames)) × (u : System (blob_writer frames)) × (st : Step
            drained_run.0 [] x u)
          × (is_own st ≡ true))
    × (drained_run.0.writer ≡ gone → (first ∷ second ∷ []) ≡ [] ++ (first ∷ second ∷ []))
unfolding closed_behind drained_run
Reach-drains_example = Reach-drains refl closed_behind.1 refl drained_run.1

flush_uncounted_example :
    let o =
      (blob_writer frames).flush_out
        (record { on_data = refuse 1; on_index = keep })
        (write_frame frames kept first opened.out) in
    (o.written ≡ 1) × (o.write_errors ≡ 0) × (length o.sink.data_file.disk ≡ 1)
unfolding open_blob open_queue open_sink write
flush_uncounted_example = flush_uncounted frames (text "h") 4 first.0 first.1 1 refl (omega arith)

-- A recorder that was closed behind those two frames.
abbrev used : Recorder (blob_writer frames)
used = record (fresh_blob frames) {
  out = record (fresh_blob frames).out { sink = record fresh_sink { offset = 3 } };
}

abbrev reused : Recorder (blob_writer frames)
reused = record opened { out = record opened.out { sink = record opened.out.sink { offset = 3 } } }

reopen_misplaces_example :
    ¬ Slices frames
      (contents (write_frame frames kept first reused.out).sink.data_file)
      3
      (first ∷ [])
unfolding open_blob open_queue open_sink write write_frame append count track
reopen_misplaces_example =
    reopen_misplaces frames (text "h") 4 used kept first.0 first.1 refl (omega arith) (omega arith)
      refl

-- Rows of numbers.
abbrev rows : RecordType
rows = record { Record = ℕ; row = λ n t. decimal n }

abbrev opened_rows : Recorder (row_writer rows)
opened_rows = record (ready (fresh_rows rows)) {
  out = record (fresh_rows rows).out {
    file = record { disk = []; buffer = b'h' ∷ b'\n' ∷ []; good = true; is_open = true };
  };
}

abbrev ended_rows : System (row_writer rows)
ended_rows = (both_left opened_rows (7, pos 100) (9, pos 200) keep).0

rows_recorded_example : (close_stream keep ended_rows.rec.out.file).disk ≡ text "h\n7\n9\n"
unfolding both_left open_rows write_row open_queue count_row write flush close_stream decimal
rows_recorded_example =
    rows_recorded rows keep (text "h") 4 (fresh_rows rows) keep refl
      (both_left opened_rows (7, pos 100) (9, pos 200) keep).1 refl refl

-- A queue with room for one record, which refuses the second.
abbrev narrow : Recorder (row_writer rows)
narrow = record opened_rows { queue = record { queue = []; capacity = 1; closed = false } }

unfoldable one_refused :
    (s : System (row_writer rows)) × Reach (launched narrow) ((7, pos 100) ∷ []) [] s
unfolding RecordQueue.push
one_refused = (
  _,
  next
      (next
        (next (next (next here (arrive (7, pos 100) refl)) (enqueue (7, pos 100) refl refl))
          (arrive (9, pos 200) refl))
        (refuse (9, pos 200) refl refl))
      (drop refl),
)

Reach-arrived_example :
    (n : ℕ) × Less {A = ℕ × ℤ} n ((7, pos 100) ∷ []) ((7, pos 100) ∷ (9, pos 200) ∷ [])
    × (u64 1 ≡ u64 (0 + n))
unfolding one_refused
Reach-arrived_example = Reach-arrived one_refused.1 refl
