-- ===== src/Lib.antt =====
-- kist-data-collector: the recorder of a robot's cameras and state streams, as far as it is modelled
-- here, and what is proved of it.
--
-- The program subscribes DDS topics. Each stream has a callback that pushes records into a bounded
-- queue and a writer thread that takes them out in batches and writes files. DataCollector starts
-- and stops the recorders of a session, prints a report each second and keeps meta.yaml.
--
-- RecordQueue: include/common/record_queue.hpp. `open`, `push`, `pop_all` and `close` are
--   functions on the queue's state (open_queue, push, pop_all, close); a `pop_all` that would wait is
--   the value `blocked`. RecordQueue/History runs any sequence of them.
-- Stream: std::ofstream as the recorders use it, and include/common/stream_stats.hpp. A `Fate` says
--   for each write and flush whether the bytes stay in the buffer, reach the disk, or are refused.
-- Pipeline: what include/common/blob_recorder.hpp and row_recorder.hpp share: the counters, `push`,
--   and the threads. Pipeline/Threads interleaves callback, writer and owner in any order, one access
--   to the shared state a step. Pipeline/Serial lets them take turns, for the lives of the recorders.
--   Pipeline/Arrivals compares what the callback is given with what the queue takes.
--   The two classes fill the interface `Writer`.
-- Blob: BlobSink and BlobRecorder (include/common/blob_recorder.hpp); `none` of `open_blob` is
--   std::terminate.
-- Row: RowRecorder (include/common/row_recorder.hpp).
-- Schema: the CSV rows (include/unitree_recorder, uwb_recorder, gearsonic_recorder,
--   realsense_recorder), byte by byte, with the buffers of snprintf. Schema/Cells and the modules of
--   that name below Schema/Command and Schema/State, with Schema/State/Hand, cut them at the commas.
-- Recorders: src/system/lowstate_recorder.cpp, dex3_recorder.cpp, lowcmd_recorder.cpp,
--   dex3_cmd_recorder.cpp, motion_token_recorder.cpp, uwb_recorder.cpp: one control flow and six
--   classes that call it. Recorders/Callbacks has the callbacks of the hands, which print a line.
-- Camera: src/system/realsense_recorder.cpp with the start and stop of
--   include/realsense_recorder/reliable_subscriber.hpp.
-- Subscriber: the take thread of include/realsense_recorder/reliable_subscriber.hpp, interleaved with
--   what DDS brings and with `stop`, which sweeps the reader and closes it in two steps.
-- FrameMaps: include/realsense_recorder/frame_maps.hpp, over the accessors of the messages.
-- Outcome: calls that may end without a result.
-- Session: src/common/session.cpp. The clock and the file system are arguments; meta.yaml is a text,
--   and a `MetaWrite` says for each write to it whether the file opens and how many bytes are taken.
--   Session/Notes has its fixed lines, Session/Meta the whole file of an episode, Session/Reading a
--   reader of it that stands for a YAML parser's, and Session/RoundTrip what it finds.
-- Settings: DataCollector::Settings and from_yaml (src/system/data_collector.cpp).
-- Collector: DataCollector (src/system/data_collector.cpp) over the interface `Parts` of its
--   recorders; Collector/Runs has every state that its operations can lead to. Collector/Rates
--   is about the reports of a recording, Collector/Printed about their text, with
--   include/common/human_size.hpp.
-- Fleet: `Parts` filled by the recorders above, each with how it got where it is. Fleet/Named is about
--   the names by which they go.
-- Export: src/export and include/export. Export/Line and Export/DepthLine are the lines of the two
--   index files as sscanf reads them; Export/Reading the loops over std::getline; Export/ColorIndex
--   and Export/DepthIndex the four read_index functions; Export/Mp4, Export/ImageRun and
--   Export/DepthRuns the four `run` functions; Export/Worker `start`, `stop` and `wait` of all four,
--   interleaved with the worker thread; Export/Tools the main functions of tools;
--   Export/EndToEnd all of it on what the recorders leave, and Export/Wire on what DDS brought.
-- Program: src/main.cpp and include/common/dds_config.hpp. The report loop goes as
--   far as the looks at g_stop and the clock that are given; if none of these has seen the signal,
--   the program has not ended. Program/Episode and Program/Found follow meta.yaml through a whole
--   run, Program/Accounts follows that of the fleet, and Program/Silent compares runs whose writes to
--   it end differently.
-- Common: names of the libraries, 64-bit words, integers, texts as lists of bytes.
-- Tests: the theorems at concrete inputs.
--
-- Numbers are natural numbers, and a 64-bit counter wraps around explicitly (u64, sub_u64). No
-- function needs fuel: the loops run over lists, and the threads are a relation. Only the report
-- loop may be cut short by the end of its list, and then says so. Of the texts printed to the
-- terminal, the reports and the hand recorders' line are modelled.
--
-- Not modelled: the pictures that the exporters make, and what else is printed to the terminal. The
-- message classes that the build generates are parameters, as are the fields of the SDK's.
-- yaml-cpp, DDS, FFmpeg, OpenCV, the depth decoder, <ctime>, and the printing and reading of floats are
-- parameters, with the laws that are used stated there. Numbers that sscanf reads are not cut to
-- their types: what C does out of range is not defined.
pub mod Common
pub mod Outcome
pub mod RecordQueue
pub mod Stream
pub mod Pipeline
pub mod Blob
pub mod Row
pub mod Schema
pub mod Session
pub mod Settings
pub mod Collector
pub mod Recorders
pub mod Fleet
pub mod Subscriber
pub mod Export
pub mod Program
pub mod FrameMaps
pub mod Tests
pub mod Camera
