-- ===== src/Recorders.antt =====
-- The recorders of src/system/ that feed one RowRecorder from one subscriber. They differ in record
-- type, header, file and topic, and share their control flow. Between a call's own steps nothing
-- else runs here; the interleavings of callback and writer thread are those of Pipeline/Threads.
pub mod Streams
pub mod Life
pub mod Callbacks
use kist_data_collector.Common.{
  ℕ, ◌+◌, List, [], ◌∷◌, Bool, true, false, Option, none, some, if◌then◌else◌,
}
use kist_data_collector.Common.Text.{Text}
use kist_data_collector.Common.Int.{ℤ}
use kist_data_collector.RecordQueue
use kist_data_collector.Stream.{Fate}
use kist_data_collector.Pipeline
use kist_data_collector.Pipeline.{Recorder}
use kist_data_collector.Pipeline.Serial
use kist_data_collector.Pipeline.Serial.{Answers}
use kist_data_collector.Row.{RecordType, RowOut, write_row, row_writer, open_rows, fresh_rows}
use kist_data_collector.Outcome.{◌>>=◌}

-- What DDS does with a start: it throws before a subscriber stands in `sub_`, it throws when the
-- channel is set up, or it connects.
pub data Dds : Type 0 where
  no_subscriber : Dds
  no_channel : Dds
  connected : Dds

-- `has_sub`: `sub_` holds a subscriber. `label`: `label_` or `side_`, where the class has one.
pub record SdkRecorder (T : RecordType) : Type 0 where
  pub rec : Recorder (row_writer T)
  pub label : Text
  pub has_sub : Bool
  pub running : Bool

-- What the file system does during one call: whether the file opens, and with each write.
pub record Disk : Type 0 where
  pub opens : Bool
  pub on_header : Fate
  pub on_row : ℕ → Fate
  pub on_flush : Fate

module _ (T : RecordType) where
  -- The members' initial values.
  abbrev pub fresh_sdk : SdkRecorder T
  fresh_sdk = record { rec = fresh_rows T; label = []; has_sub = false; running = false }

  abbrev pub answers : Disk → Answers (row_writer T)
  answers d = record { on_item = d.on_row; on_flush = d.on_flush; on_close = d.on_flush }

  -- Behind `rec_.open`.
  abbrev pub connect : Disk → Dds → SdkRecorder T → SdkRecorder T × Bool
  connect d no_subscriber r = (record r { rec = Serial.close (answers d) r.rec }, false)
  connect d no_channel r =
      (record r { has_sub = true; rec = Serial.close (answers d) r.rec }, false)
  connect d connected r = (record r { has_sub = true; running = true }, true)

  abbrev pub opened_sdk :
      Disk → Dds → SdkRecorder T → Recorder (row_writer T) × Bool → SdkRecorder T × Bool
  opened_sdk d dds r (rec, ok) =
      if ok then connect d dds (record r { rec = rec }) else (record r { rec = rec }, false)

  -- `start`, but for what each class calls it with. `none` is std::terminate.
  unfoldable pub start_sdk : Disk → Dds → Text → ℕ → SdkRecorder T → Option (SdkRecorder T × Bool)
  start_sdk d dds header queue_capacity r = if r.running then some (r, true) else (do
    rec ← open_rows T d.opens d.on_header header queue_capacity r.rec
    some (opened_sdk d dds r rec))

  -- `stop`
  unfoldable pub stop_sdk : Disk → SdkRecorder T → SdkRecorder T
  stop_sdk d r = record r { has_sub = false; rec = Serial.close (answers d) r.rec; running = false }

  -- The DDS callback, which a recorder with a subscriber can get at any time.
  unfoldable pub deliver : T.Record → ℤ → SdkRecorder T → SdkRecorder T
  deliver m recv_ns r = record r { rec = Pipeline.push m recv_ns r.rec }
