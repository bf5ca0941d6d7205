-- ===== src/Pipeline/Serial.antt =====
-- A recorder whose threads take turns: the writer's loop one batch at a time, and `close`
-- (include/common/blob_recorder.hpp, row_recorder.hpp). Any finer interleaving is that of
-- Pipeline/Threads.
pub mod Steady
use kist_data_collector.Common.{ℕ, ◌+◌, List, [], ◌∷◌, Bool, false, if◌then◌else◌}
use kist_data_collector.Common.Int.{ℤ}
use kist_data_collector.RecordQueue
use kist_data_collector.Pipeline.{Writer, Recorder}

-- What the file system does with each record, with the flush, and when the files are closed.
pub record Answers (W : Writer) : Type 0 where
  pub on_item : ℕ → W.Choice
  pub on_flush : W.Choice
  pub on_close : W.Choice

-- The loop over a batch.
unfoldable pub write_batch : (W : Writer) → (ℕ → W.Choice) → List (W.Item × ℤ) → W.Out → W.Out
write_batch W on_item [] o = o
write_batch W on_item (x ∷ xs) o =
    write_batch W (λ n. on_item (n + 1)) xs (W.write_item (on_item 0) x o)

module _ {W : Writer} where
  -- One turn of the loop in `run`: the batch is written and flushed. An empty queue blocks it.
  abbrev pub turn : Answers W → List (W.Item × ℤ) → Recorder W → Recorder W
  turn d [] r = r
  turn d (x ∷ xs) r = record r {
    queue = record r.queue { queue = [] };
    out = W.flush_out d.on_flush (write_batch W d.on_item (x ∷ xs) r.out);
  }

  unfoldable pub serve : Answers W → Recorder W → Recorder W
  serve d r = turn d r.queue.queue r

  abbrev join_writer : Answers W → Recorder W → Recorder W
  join_writer d r = record r { out = W.close_out d.on_close r.out; joinable = false }

  -- `close`: the writer thread takes what is left in the queue and ends, and the files are closed.
  unfoldable pub close : Answers W → Recorder W → Recorder W
  close d r =
      if r.joinable
      then join_writer d (serve d (record r { queue = RecordQueue.close r.queue }))
      else r
