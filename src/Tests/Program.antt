-- ===== src/Tests/Program.antt =====
-- The program at a config with a `unitree` section and nothing else, and its prompt.
use kist_data_collector.Common.{ℕ, ◌≡◌, refl, Bool, [], ◌∷◌, true, false, none, some}
use kist_data_collector.Common.Text.{text}
use kist_data_collector.Common.Int.{pos}
use kist_data_collector.Outcome.{Holds, ◌>>=◌}
use kist_data_collector.Session.{accepted}
use kist_data_collector.Settings.{from_yaml}
use kist_data_collector.Collector.{Collector}
use kist_data_collector.Collector.Runs.{Moved}
use kist_data_collector.Program.{Terminal, Look, Machine, Exit, apply_dds_config, main}
use kist_data_collector.Program.Life.{Spaced, saw_stop, main-ends}
use kist_data_collector.Program.Silent.{seen, main-silent}
use kist_data_collector.Tests.Collector.{parts, scene}
use kist_data_collector.Tests.Settings.{bare}

abbrev pub terminal : Terminal
terminal = record { is_tty = true; has_attributes = true; keys = b'x' ∷ b'F' ∷ b's' ∷ [] }

abbrev pub look : Bool → ℕ → Look parts
look stop_seen now = record { stop_seen = stop_seen; now = now; progress = λ c. c }

abbrev machine : Machine bare parts
machine = record {
  root = some 0;
  dds = record { preset = text "file:///dds.xml"; absolute = λ p. none; exists = λ p. false };
  scene = scene;
  window = 0;
  looks =
      look false 100000000
      ∷ look false 1000000000
      ∷ look false 1500000000
      ∷ look false 2100000000
      ∷ look true 2200000000
      ∷ [];
  end_write = accepted;
  ended_utc = [];
  ended_ns = pos 3000000000;
  interrupted = true;
  terminal = terminal;
  label_write = accepted;
}

pub stays : (c : Collector parts) → Moved parts c c
stays c = record {
  same = refl;
  cameras = refl;
  lowstate = refl;
  hands = refl;
  uwb = refl;
  body_cmds = refl;
  hand_cmds = refl;
  motion_token = refl;
  names = refl;
  hand_tags = refl;
  body_cmd_tags = refl;
  hand_cmd_tags = refl;
}

preset_wins : apply_dds_config bare machine.dds 0 ≡ some (some (text "file:///dds.xml"))
unfolding apply_dds_config
preset_wins = refl

main-ends_example :
    Holds
      (λ (x : Exit parts).
        Spaced 0 x.reports
        × (x.code ≡ none → saw_stop parts machine.looks ≡ false)
        × (x.code ≡ some 0 → (saw_stop parts machine.looks ≡ true) × (x.collector.running ≡ false)))
      (main bare parts machine)
unfolding from_yaml
main-ends_example =
    main-ends bare parts machine (stays, (stays, (stays, (stays, (stays, tt))))) 0 _
      (some (text "file:///dds.xml")) refl refl preset_wins

-- The machine on which the writing of the summary is refused after ten bytes, and the label's file
-- does not open.
main-silent_example :
    (main bare parts (record machine {
      end_write = record { opens = true; taken = some 10 };
      label_write = record { opens = false; taken = none };
    })
      >>= seen)
    ≡ (main bare parts machine >>= seen)
main-silent_example =
    main-silent bare parts machine (record { opens = true; taken = some 10 })
      (record { opens = false; taken = none })
