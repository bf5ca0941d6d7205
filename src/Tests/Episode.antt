-- ===== src/Tests/Episode.antt =====
-- A whole run of the program at a config that enables every stream, and its meta.yaml.
use kist_data_collector.Common.{ℕ, ◌≡◌, refl, Bool, [], ◌∷◌, true, false, none, some}
use kist_data_collector.Common.Text.{Text, text}
use kist_data_collector.Common.Int.{pos}
use kist_data_collector.Common.Lacks.{Lacks, lacks-Lacks}
use kist_data_collector.Session.{accepted, session_create}
use kist_data_collector.Session.Reading.{read_streams, read_result}
use kist_data_collector.Settings.{Yaml, Settings, from_yaml}
use kist_data_collector.Collector.{Parts, Collector, new_collector}
use kist_data_collector.Collector.Start.{
  start, nothing_enabled, holds_nothing, start_recorders, announce,
}
use kist_data_collector.Collector.Report.{print_report, report_cameras, report_streams, reported}
use kist_data_collector.Collector.Runs.{Moved}
use kist_data_collector.Program.{Look, Machine, Exit, apply_dds_config, prompt_result, main}
use kist_data_collector.Program.Found.{PlainRun}
use kist_data_collector.Program.Accounts.{main-accounts}
use kist_data_collector.Collector.Summary.{AllSettled}
use kist_data_collector.Fleet.{fleet}
use kist_data_collector.Row.{open_rows}
use kist_data_collector.Recorders.{start_sdk}
use kist_data_collector.Recorders.Streams.{
  start_lowstate, start_dex3, start_uwb, start_lowcmd, start_dex3_cmd, start_motion_token,
}
use kist_data_collector.Tests.Fleet.{halves, world, scene}
use kist_data_collector.Tests.Settings.{bare}
use kist_data_collector.Tests.Program.{terminal}

-- A config in which every section is there and every stream enabled.
abbrev full : Yaml
full = record bare { at = λ n key. some 1; defined = λ n. true; as_bool = λ n fallback. true }

abbrev own : Parts
own = fleet halves world

abbrev look : Bool → ℕ → Look own
look stop_seen now = record { stop_seen = stop_seen; now = now; progress = λ c. c }

abbrev full_machine : Machine full own
full_machine = record {
  root = some 0;
  dds = record { preset = text "file:///dds.xml"; absolute = λ p. none; exists = λ p. false };
  scene = scene;
  window = 0;
  looks =
      look false 100000000
      ∷ look false 1000000000
      ∷ look false 1500000000
      ∷ look false 2100000000
      ∷ look true 2200000000
      ∷ [];
  end_write = accepted;
  ended_utc = [];
  ended_ns = pos 3000000000;
  interrupted = true;
  terminal = terminal;
  label_write = accepted;
}

stays : (c : Collector own) → Moved own c c
stays c = record {
  same = refl;
  cameras = refl;
  lowstate = refl;
  hands = refl;
  uwb = refl;
  body_cmds = refl;
  hand_cmds = refl;
  motion_token = refl;
  names = refl;
  hand_tags = refl;
  body_cmd_tags = refl;
  hand_cmd_tags = refl;
}

unfoldable finished : (x : Exit own) × (main full own full_machine ≡ some x)
unfolding main from_yaml start new_collector nothing_enabled session_create holds_nothing
    start_recorders print_report report_cameras announce report_streams reported fleet start_sdk
    open_rows start_lowstate start_dex3 start_uwb start_lowcmd start_dex3_cmd start_motion_token
finished = (_, refl)

unfoldable full_settings : (s : Settings) × (from_yaml full 0 ≡ some s)
unfolding from_yaml
full_settings = (_, refl)

full-PlainRun : PlainRun full own full_machine full_settings.0 (text "file:///dds.xml")
unfolding full_settings
full-PlainRun = record {
  started = lacks-Lacks 10 scene.started_utc refl;
  ended = tt;
  dds = lacks-Lacks 10 (text "file:///dds.xml") refl;
  task = tt;
  unquoted = tt;
  unescaped = tt;
  cameras = tt;
  head = refl;
  tail = refl;
  result = refl;
}

code_zero : finished.0.code ≡ some 0
unfolding finished
code_zero = refl

stems : (csv : Text) → Lacks 10 csv → Lacks 10 (world.stem csv)
stems csv h = lacks-Lacks 10 (text "lowcmd") refl

main-accounts_example :
    AllSettled (read_streams finished.0.collector.meta)
    × (read_result finished.0.collector.meta ≡ some (text "fail"))
unfolding apply_dds_config prompt_result
main-accounts_example =
    main-accounts full halves world full_machine 0 full_settings.0 (text "file:///dds.xml") stems
      refl full_settings.1 refl (stays, (stays, (stays, (stays, (stays, tt))))) full-PlainRun
      finished.1 code_zero
