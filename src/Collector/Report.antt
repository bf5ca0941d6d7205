-- ===== src/Collector/Report.antt =====
-- DataCollector::print_report (src/system/data_collector.cpp): what is printed for each stream, and
-- the window's counters it leaves. `last_…_[i]` out of range is `none`.
use kist_data_collector.Common.{ℕ, List, [], ◌∷◌, ◌++◌, Option, none, some, sub_u64}
use kist_data_collector.Common.Text.{Text, text}
use kist_data_collector.Stream.{StreamStats}
use kist_data_collector.Outcome.{◌>>=◌}
use kist_data_collector.Collector.{Parts, Collector, CamLast, Last}

-- One line of the report: the two rates, and the counters that it prints as they are.
pub record Line : Type 0 where
  pub label : Text
  pub rx : ℕ
  pub wr : ℕ
  pub stats : StreamStats

unfoldable pub line_of : Text → Last → StreamStats → Line
line_of label last s = record {
  label = label;
  rx = sub_u64 s.received last.rx;
  wr = sub_u64 s.written last.wr;
  stats = s;
}

abbrev pub last_of : StreamStats → Last
last_of s = record { rx = s.received; wr = s.written }

module _ (P : Parts) where
  open P use {Camera, Stream, color_stats, depth_stats, stats, name, tag}

  abbrev cam_last : Camera → CamLast
  cam_last cam = record {
    c_rx = (color_stats cam).received;
    c_wr = (color_stats cam).written;
    d_rx = (depth_stats cam).received;
    d_wr = (depth_stats cam).written;
  }

  abbrev cam_lines : Camera → CamLast → List Line
  cam_lines cam l =
      line_of (name cam) (record { rx = l.c_rx; wr = l.c_wr }) (color_stats cam)
      ∷ line_of (name cam) (record { rx = l.d_rx; wr = l.d_wr }) (depth_stats cam)
      ∷ []

  -- The loop over the cameras.
  unfoldable pub report_cameras : List Camera → List CamLast → Option (List Line × List CamLast)
  report_cameras [] lasts = some ([], lasts)
  report_cameras (cam ∷ cams) [] = none
  report_cameras (cam ∷ cams) (l ∷ ls) = do
    (lines, lasts) ← report_cameras cams ls
    some (cam_lines cam l ++ lines, cam_last cam ∷ lasts)

  -- The loop over the hands, and those over the commands.
  unfoldable pub report_streams : Text → List Stream → List Last → Option (List Line × List Last)
  report_streams prefix [] lasts = some ([], lasts)
  report_streams prefix (s ∷ ss) [] = none
  report_streams prefix (s ∷ ss) (l ∷ ls) = do
    (lines, lasts) ← report_streams prefix ss ls
    some (line_of (prefix ++ tag s) l (stats s) ∷ lines, last_of (stats s) ∷ lasts)

  abbrev pub report_one : Text → Option Stream → Last → List Line × Last
  report_one label none l = ([], l)
  report_one label (some s) l = (line_of label l (stats s) ∷ [], last_of (stats s))

  -- The whole report, from those of the four vectors, and the windows it leaves.
  unfoldable pub reported :
      Collector P
      → List Line × List CamLast
      → (hands body hand : List Line × List Last) → List Line × Collector P
  reported c cams hands body hand =
      let (ls, last_ls) = report_one (text "lowstate") c.lowstate c.last_ls in
      let (uw, last_uw) = report_one (text "uwb") c.uwb c.last_uw in
      let (mt, last_mt) = report_one (text "motion_token") c.motion_token c.last_mt in
      (
        cams.0 ++ ls ++ uw ++ hands.0 ++ body.0 ++ hand.0 ++ mt,
        record c {
          last_cam = cams.1;
          last_ls = last_ls;
          last_uw = last_uw;
          last_hand = hands.1;
          last_body_cmd = body.1;
          last_hand_cmd = hand.1;
          last_mt = last_mt;
        },
      )

  unfoldable pub print_report : Collector P → Option (List Line × Collector P)
  print_report c = do
    cams ← report_cameras c.cameras c.last_cam
    hands ← report_streams (text "hand_") c.hands c.last_hand
    body ← report_streams [] c.body_cmds c.last_body_cmd
    hand ← report_streams (text "cmd_") c.hand_cmds c.last_hand_cmd
    some (reported c cams hands body hand)
