-- ===== src/Program.antt =====
-- The collector's program: src/main.cpp, with include/common/dds_config.hpp.
pub mod Life
pub mod Silent
pub mod Episode
pub mod Found
pub mod Accounts
use kist_data_collector.Common.{
  ℕ, ◌+◌, ◌-◌, ◌≡◌, List, [], ◌∷◌, ◌++◌, Bool, true, false, not, ◌&&◌, ◌||◌, Option, none, some,
  if◌then◌else◌, ◌==◌, ltb,
}
use kist_data_collector.Common.Text.{Text, text}
use kist_data_collector.Common.Int.{ℤ}
use kist_data_collector.Outcome.{◌>>=◌}
use kist_data_collector.Session.{MetaWrite, is_empty}
use kist_data_collector.Settings.{Yaml, Settings, from_yaml, text_under}
use kist_data_collector.Collector.{Parts, Collector, new_collector}
use kist_data_collector.Collector.Start.{Scene, start}
use kist_data_collector.Collector.Report.{print_report}
use kist_data_collector.Collector.Stop.{stop, write_result}

-- What apply_dds_config finds: CYCLONEDDS_URI, empty if it is not set; and std::filesystem.
pub record DdsSetup : Type 0 where
  pub preset : Text
  pub absolute : Text → Option Text
  pub exists : Text → Bool

-- The answer of apply_dds_config, and the URI where it is true.
abbrev pub uri_of : DdsSetup → Option Text → Option Text
uri_of e none = none
uri_of e (some abs) = if e.exists abs then some (text "file://" ++ abs) else none

-- The outer none is an exception of yaml-cpp, the inner one an answer of false.
unfoldable pub apply_dds_config : (Y : Yaml) → DdsSetup → Y.Node → Option (Option Text)
apply_dds_config Y e root = if not (is_empty e.preset) then some (some e.preset) else (do
  unitree ← Y.at root (text "unitree")
  path ← text_under Y unitree (text "dds_config") (text "config/cyclonedds.xml")
  some (uri_of e (e.absolute path)))

-- The terminal: the keys that `read` gives until it returns 0 or is interrupted.
pub record Terminal : Type 0 where
  pub is_tty : Bool
  pub has_attributes : Bool
  pub keys : List ℕ

-- The loop of prompt_result.
unfoldable pub read_label : List ℕ → Text
read_label [] = []
read_label (c ∷ keys) =
    let later = read_label keys in
    if c == b's' || c == b'S'
    then text "success"
    else if c == b'f' || c == b'F'
    then text "fail"
    else later

unfoldable pub prompt_result : Terminal → Text
unfolding read_label
prompt_result e =
    if not e.is_tty then [] else if not e.has_attributes then [] else read_label e.keys

-- One look at `g_stop` at the head of the report loop, and the round behind it: whether the signal
-- had come, the clock behind the sleep, in nanoseconds, and what the recorders have received and
-- written since the look before.
pub record Look (P : Parts) : Type 0 where
  pub stop_seen : Bool
  pub now : ℕ
  pub progress : Collector P → Collector P

abbrev pub second : ℕ
second = 1000000000

-- Where the report loop is: whether it has ended, the times of its reports, and the collector.
pub record Watch (P : Parts) : Type 0 where
  pub ended : Bool
  pub reports : List ℕ
  pub collector : Collector P

-- `while (!g_stop)`, for as long as `looks` goes on: a loop that has not seen the signal by then has
-- not ended. `none` is a read behind the end of a vector.
unfoldable pub report_loop : (P : Parts) → ℕ → List (Look P) → Collector P → Option (Watch P)
report_loop P window [] c = some (record { ended = false; reports = []; collector = c })
report_loop P window (l ∷ looks) c =
    let waiting = report_loop P window looks (l.progress c) in
    if l.stop_seen
    then some (record { ended = true; reports = []; collector = l.progress c })
    else if ltb (l.now - window) second
    then waiting
    else (do
      report ← print_report P (l.progress c)
      rest ← report_loop P l.now looks report.1
      some (record rest { reports = l.now ∷ rest.reports }))

-- The world of one run of the program. `root` is what Config::load makes of the config file, none if
-- it throws; `interrupted` says that the signal was SIGINT.
pub record Machine (Y : Yaml) (P : Parts) : Type 0 where
  pub root : Option Y.Node
  pub dds : DdsSetup
  pub scene : Scene
  pub window : ℕ
  pub looks : List (Look P)
  pub end_write : MetaWrite
  pub ended_utc : Text
  pub ended_ns : ℤ
  pub interrupted : Bool
  pub terminal : Terminal
  pub label_write : MetaWrite

-- The exit code, none while the program runs; the times of the reports; and the collector.
pub record Exit (P : Parts) : Type 0 where
  pub code : Option ℕ
  pub reports : List ℕ
  pub collector : Collector P

module _ (Y : Yaml) (P : Parts) (e : Machine Y P) where
  abbrev pub label_episode : Collector P → Collector P
  label_episode c =
      if e.interrupted then write_result P e.label_write (prompt_result e.terminal) c else c

  -- Behind the loop, if it has ended.
  abbrev pub exit_of : Watch P → Exit P
  exit_of w =
      if w.ended
      then record {
        code = some 0;
        reports = w.reports;
        collector = label_episode (stop P e.end_write e.ended_utc e.ended_ns w.collector);
      }
      else record { code = none; reports = w.reports; collector = w.collector }

  abbrev pub record_session : Collector P × Bool → Option (Exit P)
  record_session (c, ok) =
      if ok
      then (do watched ← report_loop P e.window e.looks c; some (exit_of watched))
      else some (record { code = some 1; reports = []; collector = c })

  -- `settings.dds_uri` is set where apply_dds_config returns true.
  abbrev pub start_session : Settings → Option Text → Option (Exit P)
  start_session s none = some (record { code = some 1; reports = []; collector = new_collector P })
  start_session s (some uri) =
      record_session (start P e.scene (record s { dds_uri = uri }) (new_collector P))

  -- `main`; none is an exception, or a read behind the end of a vector.
  unfoldable pub main : Option (Exit P)
  unfolding apply_dds_config prompt_result report_loop
  main = do
    root ← e.root
    s ← from_yaml Y root
    uri ← apply_dds_config Y e.dds root
    start_session s uri
