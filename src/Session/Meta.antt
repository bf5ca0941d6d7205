-- ===== src/Session/Meta.antt =====
-- meta.yaml (src/common/session.cpp) line by line.
use kist_data_collector.Common.{
  ◌≡◌, refl, sym, ap, ◌∙◌, List, [], ◌∷◌, ◌++◌, append-nil, append_assoc, Bool-cases, inl, inr,
  ◌||◌, if◌then◌else◌,
}
use kist_data_collector.Common.Text.{Text, text, decimal, decimal_ℤ, newline}
use kist_data_collector.Common.Int.{ℤ}
use kist_data_collector.Session.{
  MetaWrite, accepted, SessionInfo, StreamSummary, unlines, camera_lines, line, stream_lines,
  summary_lines, is_empty, session_write_meta, session_finalize_meta, session_append_result,
}
use kist_data_collector.Session.Notes.{format_notes}

-- The lines, without their ends.
abbrev pub camera_entries : List Text → List Text
camera_entries [] = []
camera_entries (name ∷ names) = (text "  - " ++ name) ∷ camera_entries names

unfoldable pub head_lines : Text → SessionInfo → ℤ → Text → List Text → Text → List Text
head_lines started_utc session domain_id dds_config cameras task =
    text "session:"
    ∷ (text "  started_utc: " ++ started_utc)
    ∷ (text "  started_epoch_ns: " ++ decimal_ℤ session.started_ns)
    ∷ (text "  domain_id: " ++ decimal_ℤ domain_id)
    ∷ (text "  dds_config: " ++ dds_config)
    ∷ (text "  task: \"" ++ (task ++ text "\""))
    ∷ text "cameras:"
    ∷ (camera_entries cameras ++ format_notes)

abbrev pub stream_entry : StreamSummary → List Text → List Text
stream_entry s rest =
    (text "  - source: " ++ s.source)
    ∷ (text "    stream: " ++ s.stream)
    ∷ (text "    received: " ++ decimal s.stats.received)
    ∷ (text "    written: " ++ decimal s.stats.written)
    ∷ (text "    dropped: " ++ decimal s.stats.dropped)
    ∷ (text "    write_errors: " ++ decimal s.stats.write_errors)
    ∷ (text "    wire_gaps: " ++ decimal s.stats.wire_gaps)
    ∷ (text "    bytes: " ++ decimal s.stats.bytes)
    ∷ rest

-- The entries in front of `rest`.
abbrev pub stream_entries : List StreamSummary → List Text → List Text
stream_entries [] rest = rest
stream_entries (s ∷ ss) rest = stream_entry s (stream_entries ss rest)

abbrev pub tail_lines : Text → ℤ → List StreamSummary → List Text → List Text
tail_lines ended_utc ended_ns streams rest =
    (text "ended_utc: " ++ ended_utc)
    ∷ (text "ended_epoch_ns: " ++ decimal_ℤ ended_ns)
    ∷ text "streams:"
    ∷ stream_entries streams rest

unlines-append : (xs ys : List Text) → unlines (xs ++ ys) ≡ unlines xs ++ unlines ys
unlines-append [] ys = refl
unlines-append (x ∷ xs) ys =
    ap (λ s. (x ++ newline) ++ s) (unlines-append xs ys)
    ∙ sym (append_assoc (x ++ newline) (unlines xs) (unlines ys))

camera_lines-unlines : (names : List Text) → camera_lines names ≡ unlines (camera_entries names)
camera_lines-unlines [] = refl
camera_lines-unlines (name ∷ names) =
    ap (λ s. ((text "  - " ++ name) ++ newline) ++ s) (camera_lines-unlines names)

write_meta-unlines :
    (started_utc : Text) (session : SessionInfo) (domain_id : ℤ) (dds_config : Text)
    (cameras : List Text) (task found : Text)
    → session_write_meta accepted found started_utc session domain_id dds_config cameras task
      ≡ unlines (head_lines started_utc session domain_id dds_config cameras task)
unfolding session_write_meta head_lines
write_meta-unlines started_utc session domain_id dds_config cameras task found =
    rw (camera_lines-unlines cameras, unlines-append (camera_entries cameras) format_notes) refl

stream_lines-unlines : (s : StreamSummary) → stream_lines s ≡ unlines (stream_entry s [])
stream_lines-unlines s = simp append-nil

summary_lines-unlines :
    (ss : List StreamSummary) → summary_lines ss ≡ unlines (stream_entries ss [])
summary_lines-unlines [] = refl
summary_lines-unlines (s ∷ ss) =
    ap (λ x. stream_lines s ++ x) (summary_lines-unlines ss)
    ∙ ap (λ x. x ++ unlines (stream_entries ss [])) (stream_lines-unlines s)
    ∙ sym (unlines-append (stream_entry s []) (stream_entries ss []))

finalize_meta-unlines :
    (ended_utc : Text) (ended_ns : ℤ) (streams : List StreamSummary) (ls : List Text)
    → session_finalize_meta accepted ended_utc ended_ns streams (unlines ls)
      ≡ unlines (ls ++ tail_lines ended_utc ended_ns streams [])
unfolding session_finalize_meta
finalize_meta-unlines ended_utc ended_ns streams ls =
    ap
      (λ x.
        unlines ls
        ++ (line (text "ended_utc: ") ended_utc
            ++ (line (text "ended_epoch_ns: ") (decimal_ℤ ended_ns)
                ++ ((text "streams:" ++ newline) ++ x))))
      (summary_lines-unlines streams)
    ∙ sym (unlines-append ls (tail_lines ended_utc ended_ns streams []))

-- The line of the label, if one is appended.
abbrev pub label_lines : SessionInfo → Text → List Text
label_lines session result =
    if is_empty result || is_empty session.dir then [] else (text "result: " ++ result) ∷ []

append_result-unlines :
    (session : SessionInfo) (result : Text) (ls : List Text)
    → session_append_result accepted session result (unlines ls)
      ≡ unlines (ls ++ label_lines session result)
unfolding session_append_result
append_result-unlines session result ls =
    elim (Bool-cases (is_empty result || is_empty session.dir)) [
      | inl h ↦ rw (h) (ap unlines (sym (append-nil ls)))
      | inr h ↦ rw (h) (
          ap (λ s. unlines ls ++ s) (sym (append-nil ((text "result: " ++ result) ++ newline)))
          ∙ sym (unlines-append ls ((text "result: " ++ result) ∷ [])))
    ]

-- meta.yaml of an episode that was started, stopped and labelled, with what the file system does with
-- each of the three writes.
abbrev pub episode_meta :
    MetaWrite
    → MetaWrite
    → MetaWrite
    → Text
    → Text
    → SessionInfo
    → ℤ
    → Text
    → List Text
    → Text
    → Text
    → ℤ
    → List StreamSummary
    → Text
    → Text
episode_meta head tail label found started_utc session domain_id dds_config cameras task ended_utc
      ended_ns streams result =
    session_append_result label session result (
      session_finalize_meta tail ended_utc ended_ns streams
        (session_write_meta head found started_utc session domain_id dds_config cameras task))

pub episode_meta-unlines :
    (found started_utc : Text) (session : SessionInfo) (domain_id : ℤ) (dds_config : Text)
    (cameras : List Text) (task ended_utc : Text) (ended_ns : ℤ) (streams : List StreamSummary)
    (result : Text)
    → episode_meta accepted accepted accepted found started_utc session domain_id dds_config cameras
        task ended_utc ended_ns streams result
      ≡ unlines (
          (head_lines started_utc session domain_id dds_config cameras task
            ++ tail_lines ended_utc ended_ns streams [])
          ++ label_lines session result)
episode_meta-unlines found started_utc session domain_id dds_config cameras task ended_utc ended_ns
      streams result =
    ap
      (λ m.
        session_append_result accepted session result
          (session_finalize_meta accepted ended_utc ended_ns streams m))
      (write_meta-unlines started_utc session domain_id dds_config cameras task found)
    ∙ ap (session_append_result accepted session result) (
        finalize_meta-unlines ended_utc ended_ns streams
          (head_lines started_utc session domain_id dds_config cameras task))
    ∙ append_result-unlines session result _
