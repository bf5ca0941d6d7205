-- ===== src/Program/Accounts.antt =====
-- A run of the collector's program (src/main.cpp) with the recorders of src/system/.
use kist_data_collector.Common.{◌≡◌, sym, subst, none, some, if◌then◌else◌}
use kist_data_collector.Common.Text.{Text}
use kist_data_collector.Common.Lacks.{Lacks}
use kist_data_collector.Schema.{Floats}
use kist_data_collector.Session.{is_empty}
use kist_data_collector.Session.Reading.{read_streams, read_result}
use kist_data_collector.Settings.{Yaml, Settings, from_yaml}
use kist_data_collector.Collector.Summary.{AllSettled}
use kist_data_collector.Fleet.{World, fleet}
use kist_data_collector.Fleet.Named.{fleet-NamedParts}
use kist_data_collector.Fleet.Settled.{fleet-AllSettled}
use kist_data_collector.Program.{Machine, Exit, apply_dds_config, main}
use kist_data_collector.Program.Life.{AllMove}
use kist_data_collector.Program.Episode.{given_label}
use kist_data_collector.Program.Found.{PlainRun, main-read}

-- The program, with its own recorders, ended with exit code 0, whatever became of the files of the
-- streams, and whatever DDS and its threads did: then every entry that a reader finds in meta.yaml accounts for all that the stream received
-- (dropped, written and write errors together, modulo 2^64), and it finds the operator's label exactly
-- if one was given; provided that the file system took the three writes to meta.yaml, that the config
-- was read, that between the looks nothing changed in the collector but what its recorders received
-- and wrote, that the texts of the config and of the clock hold no end of a line, and the task no quote
-- and no backslash, and that the stem of a file's name holds no end of a line if the name does not.
pub main-accounts :
    (Y : Yaml) (R : Floats) (w : World R) (e : Machine Y (fleet R w)) (root : Y.Node) (s : Settings)
    (uri : Text) {x : Exit (fleet R w)}
    → ((csv : Text) → Lacks 10 csv → Lacks 10 (w.stem csv))
    → e.root ≡ some root
    → from_yaml Y root ≡ some s
    → apply_dds_config Y e.dds root ≡ some (some uri)
    → AllMove (fleet R w) e.looks
    → PlainRun Y (fleet R w) e s uri
    → main Y (fleet R w) e ≡ some x
    → x.code ≡ some 0
    → AllSettled (read_streams x.collector.meta)
      × (read_result x.collector.meta ≡ (
          if is_empty (given_label Y (fleet R w) e)
          then none
          else some (given_label Y (fleet R w) e)))
main-accounts Y R w e root s uri stems r f u m v returned zero_code =
    let (c, l, streams, label) =
      main-read Y (fleet R w) e root s uri r f u m (fleet-NamedParts R w stems) v returned
        zero_code in
    (subst AllSettled (sym streams) (fleet-AllSettled R w c), label)
