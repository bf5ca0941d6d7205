-- ===== src/Collector/Printed.antt =====
-- What DataCollector::print_report (src/system/data_collector.cpp) puts on the terminal for the lines
-- of a report, with include/common/human_size.hpp.
use kist_data_collector.Common.{
  ℕ, zero, suc, ◌+◌, ◌-◌, ◌^◌, ◌≤◌, ◌<◌, ◌≡◌, refl, ap, ◌∙◌, List, [], ◌∷◌, ◌++◌, append_assoc, leb,
  if◌then◌else◌, Bool-cases, inl, inr, length, length-append, arith, Option, some,
}
use kist_data_collector.Common.Text.{Text, text, decimal, newline, length-decimal}
use kist_data_collector.Schema.{snprintf, snprintf-lt}
use kist_data_collector.Collector.{Parts, Collector}
use kist_data_collector.Collector.Report.{Line, print_report}
use kist_data_collector.Outcome.{◌>>=◌}

-- What printf prints for `%6.1f` of a uint64_t as a double, divided by a unit of at least 1e3: no more
-- than seventeen digits, a point and a digit.
pub record Tenths : Type 0 where
  pub tenths : (bytes unit : ℕ) → Text
  pub length-tenths :
      (bytes unit : ℕ) → bytes < 2 ^ 64 → 1000 ≤ unit → length (tenths bytes unit) ≤ 19

abbrev pub spaces : ℕ → Text
spaces zero = []
spaces (suc n) = b' ' ∷ spaces n

-- `%<width>s` and `%-<width>s`.
abbrev right : ℕ → Text → Text
right width t = spaces (width - length t) ++ t

abbrev pub left : ℕ → Text → Text
left width t = t ++ spaces (width - length t)

module _ (F : Tenths) where
  unfoldable pub human_size : ℕ → Text
  human_size bytes =
      if leb 1000000 bytes
      then snprintf 32 (F.tenths bytes 1000000 ++ text " MB")
      else if leb 1000 bytes
      then snprintf 32 (F.tenths bytes 1000 ++ text " KB")
      else snprintf 32 (right 4 (decimal bytes) ++ text " B ")

  -- `  %-12s rx …`; the label of a hand is printed by `hand_%-7s` of the side, which comes to the same,
  -- and so does `cmd_%-8s`.
  abbrev stream_text : Line → Text
  stream_text l =
      text "  "
      ++ (left 12 l.label
          ++ (text " rx "
              ++ (right 4 (decimal l.rx)
                  ++ (text " wr "
                      ++ (right 4 (decimal l.wr)
                          ++ (text " hz drop "
                              ++ (decimal l.stats.dropped
                                  ++ (text " werr "
                                      ++ (decimal l.stats.write_errors
                                          ++ (text " "
                                              ++ (human_size l.stats.bytes ++ newline)))))))))))

  -- The half of a camera's line that is about one of its streams.
  abbrev half_text : Text → Line → Text
  half_text kind l =
      kind
      ++ (text " rx "
          ++ (right 2 (decimal l.rx)
              ++ (text " wr "
                  ++ (right 2 (decimal l.wr)
                      ++ (text " fps drop "
                          ++ (decimal l.stats.dropped
                              ++ (text " gap "
                                  ++ (decimal l.stats.wire_gaps
                                      ++ (text " " ++ human_size l.stats.bytes)))))))))

  abbrev camera_text : Line → Line → Text
  camera_text color depth =
      text "  "
      ++ (left 12 color.label
          ++ (text " "
              ++ (half_text (text "color") color
                  ++ (text " | " ++ (half_text (text "depth") depth ++ newline)))))

  abbrev streams_text : List Line → Text
  streams_text [] = []
  streams_text (l ∷ ls) = stream_text l ++ streams_text ls

  -- The lines of a report, those of the first so many cameras in pairs.
  unfoldable pub report_text : ℕ → List Line → Text
  report_text zero ls = streams_text ls
  report_text (suc cameras) [] = []
  report_text (suc cameras) (color ∷ []) = []
  report_text (suc cameras) (color ∷ depth ∷ ls) = camera_text color depth ++ report_text cameras ls

  -- The text of one report, and the collector behind it.
  unfoldable pub printed_report : (P : Parts) → Collector P → Option (Text × Collector P)
  printed_report P c = do (ls, c') ← print_report P c; some (report_text (length c.cameras) ls, c')

-- A width for a text with a fixed prefix.
pub left-append :
    (prefix t : Text) (width : ℕ)
    → left (length prefix + width) (prefix ++ t) ≡ prefix ++ left width t
left-append prefix t width =
    append_assoc prefix t _
    ∙ ap (λ n. prefix ++ (t ++ spaces n)) (omega (arith, length-append prefix t))

length-spaces : (n : ℕ) → length (spaces n) ≡ n
length-spaces zero = refl
length-spaces (suc n) = omega (arith, length-spaces n)

-- No size of a uint64_t is cut by the buffer of 32.
pub human_size-whole :
    (F : Tenths) (bytes : ℕ)
    → bytes < 2 ^ 64
    → human_size F bytes ≡ (
        if leb 1000000 bytes
        then F.tenths bytes 1000000 ++ text " MB"
        else if leb 1000 bytes
        then F.tenths bytes 1000 ++ text " KB"
        else right 4 (decimal bytes) ++ text " B ")
unfolding human_size
human_size-whole F bytes h = elim (Bool-cases (leb 1000000 bytes)) [
  | inl many ↦ rw (many) (
      snprintf-lt 32 _
        (omega (arith, length-append {0}, F.length-tenths bytes 1000000 h (omega arith))))
  | inr fewer ↦ elim (Bool-cases (leb 1000 bytes)) [
    | inl some_k ↦
        rw (fewer, some_k)
          (snprintf-lt 32 _
            (omega (arith, length-append {0}, F.length-tenths bytes 1000 h (omega arith))))
    | inr few ↦
        rw (fewer, few)
          (snprintf-lt 32 (right 4 (decimal bytes) ++ text " B ") (
            omega (
              arith,
              length-append {0},
              length-spaces (4 - length (decimal bytes)),
              length-decimal 3 bytes (ground (arith, few)) (omega arith),
            )))
  ]
]
