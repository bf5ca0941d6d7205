-- ===== src/Pipeline.antt =====
-- The recording pipeline that BlobRecorder (include/common/blob_recorder.hpp) and RowRecorder
-- (include/common/row_recorder.hpp) share line by line: counters, queue, `push`, `close`. What the
-- two write differs, and is the parameter `Writer`.
pub mod Threads
pub mod Order
pub mod Accounting
pub mod Arrivals
pub mod Drain
pub mod Output
pub mod Serial
use kist_data_collector.Common.{ℕ, ◌+◌, Bool, true, false, if◌then◌else◌, u64}
use kist_data_collector.Common.Int.{ℤ}
use kist_data_collector.RecordQueue
use kist_data_collector.RecordQueue.{RecordQueue}

-- The writer thread's half of a recorder. `Out` is what only that thread changes: the files and the
-- counters of `run`. A `Choice` is what the file system does with one round of calls.
pub record Writer : Type 1 where
  pub Item : Type 0
  pub Out : Type 0
  pub Choice : Type 0
  pub write_item : Choice → Item × ℤ → Out → Out
  pub flush_out : Choice → Out → Out
  pub close_out : Choice → Out → Out

-- `joinable`: a writer thread was started and not joined.
pub record Recorder (W : Writer) : Type 0 where
  pub queue : RecordQueue (W.Item × ℤ)
  pub out : W.Out
  pub received : ℕ
  pub dropped : ℕ
  pub joinable : Bool

module _ {W : Writer} where
  -- `received_.fetch_add(1)`
  abbrev pub count_received : Recorder W → Recorder W
  count_received r = record r { received = u64 (r.received + 1) }

  -- `dropped_.fetch_add(1)`
  abbrev pub count_dropped : Recorder W → Recorder W
  count_dropped r = record r { dropped = u64 (r.dropped + 1) }

  abbrev pub offered : Recorder W → RecordQueue (W.Item × ℤ) × Bool → Recorder W × Bool
  offered r (q, ok) = (record r { queue = q }, ok)

  -- `queue_.push({item, recv_ns})`
  abbrev pub offer : W.Item × ℤ → Recorder W → Recorder W × Bool
  offer item r = offered r (RecordQueue.push item r.queue)

  -- `push`, run to its end with no other thread in between. `recv_ns` is the clock's reading.
  unfoldable pub push : W.Item → ℤ → Recorder W → Recorder W
  push item recv_ns r =
      let (r', ok) = offer (item, recv_ns) (count_received r) in if ok then r' else count_dropped r'
