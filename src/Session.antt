-- ===== src/Session.antt =====
-- src/common/session.cpp: the session directory and meta.yaml. The clock, the calendar functions of
-- <ctime> and the file system are the environment: the time read, the formatted texts and whether
-- the directories could be created, whether meta.yaml can be opened each time, and how much of what is
-- written to it reaches the file. No stream is tested behind its use, so nothing of that is reported.
pub mod Notes
pub mod Meta
pub mod Reading
pub mod RoundTrip
use kist_data_collector.Common.{
  ℕ, List, [], ◌∷◌, ◌++◌, take, Bool, true, false, ◌||◌, ◌==◌, Option, none, some, if◌then◌else◌,
}
use kist_data_collector.Common.Text.{Text, text, decimal, decimal_ℤ, newline}
use Notes.{format_notes}
use kist_data_collector.Common.Int.{ℤ}
use kist_data_collector.Stream.{StreamStats}

abbrev pub is_empty : Text → Bool
is_empty [] = true
is_empty (c ∷ t) = false

-- `std::filesystem::path(a) / b`.
abbrev pub ends_in_slash : Text → Bool
ends_in_slash [] = false
ends_in_slash (c ∷ []) = c == b'/'
ends_in_slash (c ∷ d ∷ t) = ends_in_slash (d ∷ t)

abbrev pub is_absolute : Text → Bool
is_absolute [] = false
is_absolute (c ∷ t) = c == b'/'

unfoldable pub join_path : Text → Text → Text
join_path a b =
    if is_absolute b then b else if is_empty a || ends_in_slash a then a ++ b else a ++ (b'/' ∷ b)

pub record SessionInfo : Type 0 where
  pub dir : Text
  pub started_ns : ℤ

pub record StreamSummary : Type 0 where
  pub source : Text
  pub stream : Text
  pub stats : StreamStats

-- `local_stamp`: the start time as `%Y%m%d_%H%M%S`; `created`: `create_directories` set no error.
unfoldable pub session_create :
    (started_ns : ℤ) (local_stamp : Text) (created : Bool) → Text → SessionInfo
unfolding join_path
session_create started_ns local_stamp created output_dir =
    if created
    then record { dir = join_path output_dir local_stamp; started_ns = started_ns }
    else record { dir = []; started_ns = started_ns }

abbrev pub line : Text → Text → Text
line key value = key ++ value ++ newline

abbrev pub camera_lines : List Text → Text
camera_lines [] = []
camera_lines (name ∷ names) = (text "  - " ++ name ++ newline) ++ camera_lines names

-- Lines, each with its end.
abbrev pub unlines : List Text → Text
unlines [] = []
unlines (l ∷ ls) = (l ++ newline) ++ unlines ls

-- What the file system does with one std::ofstream on meta.yaml: whether it opens, and the number of
-- bytes that it takes of those written before it refuses one; none: it takes them all.
pub record MetaWrite : Type 0 where
  pub opens : Bool
  pub taken : Option ℕ

-- It opens, and takes everything.
abbrev pub accepted : MetaWrite
accepted = record { opens = true; taken = none }

abbrev pub landed : Option ℕ → Text → Text
landed none t = t
landed (some n) t = take n t

-- `meta` is what the file holds behind `open`, `found` what it held before.
abbrev pub put : MetaWrite → (found meta : Text) → Text → Text
put disk found meta t = if disk.opens then meta ++ landed disk.taken t else found

-- The head of meta.yaml.
abbrev pub meta_head : Text → SessionInfo → ℤ → Text → List Text → Text → Text
meta_head started_utc session domain_id dds_config cameras task =
    (text "session:" ++ newline)
    ++ (line (text "  started_utc: ") started_utc
        ++ (line (text "  started_epoch_ns: ") (decimal_ℤ session.started_ns)
            ++ (line (text "  domain_id: ") (decimal_ℤ domain_id)
                ++ (line (text "  dds_config: ") dds_config
                    ++ (line (text "  task: \"") (task ++ text "\"")
                        ++ ((text "cameras:" ++ newline)
                            ++ (camera_lines cameras ++ unlines format_notes)))))))

-- `found` is what meta.yaml held before, `started_utc` the start time as `%Y-%m-%dT%H:%M:%SZ`.
unfoldable pub session_write_meta :
    MetaWrite → (found started_utc : Text) → SessionInfo → ℤ → Text → List Text → Text → Text
session_write_meta disk found started_utc session domain_id dds_config cameras task =
    put disk found [] (meta_head started_utc session domain_id dds_config cameras task)

abbrev pub stream_lines : StreamSummary → Text
stream_lines s =
    line (text "  - source: ") s.source
    ++ (line (text "    stream: ") s.stream
        ++ (line (text "    received: ") (decimal s.stats.received)
            ++ (line (text "    written: ") (decimal s.stats.written)
                ++ (line (text "    dropped: ") (decimal s.stats.dropped)
                    ++ (line (text "    write_errors: ") (decimal s.stats.write_errors)
                        ++ (line (text "    wire_gaps: ") (decimal s.stats.wire_gaps)
                            ++ line (text "    bytes: ") (decimal s.stats.bytes)))))))

abbrev pub summary_lines : List StreamSummary → Text
summary_lines [] = []
summary_lines (s ∷ ss) = stream_lines s ++ summary_lines ss

-- Appends to meta.yaml. `ended_utc` and `ended_ns` are the environment's reading of the clock.
unfoldable pub session_finalize_meta :
    MetaWrite → (ended_utc : Text) (ended_ns : ℤ) → List StreamSummary → Text → Text
session_finalize_meta disk ended_utc ended_ns streams meta = put disk meta meta (
    line (text "ended_utc: ") ended_utc
    ++ (line (text "ended_epoch_ns: ") (decimal_ℤ ended_ns)
        ++ ((text "streams:" ++ newline) ++ summary_lines streams)))

-- Appends the operator's label, unless it is empty or there is no session.
unfoldable pub session_append_result : MetaWrite → SessionInfo → Text → Text → Text
session_append_result disk session result meta =
    if is_empty result || is_empty session.dir
    then meta
    else put disk meta meta (line (text "result: ") result)
