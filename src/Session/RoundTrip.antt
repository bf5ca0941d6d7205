-- ===== src/Session/RoundTrip.antt =====
-- What a reader of meta.yaml (src/common/session.cpp) finds is what was written.
use kist_data_collector.Common.{
  ◌≡◌, refl, ap, ◌∙◌, List, [], ◌∷◌, ◌++◌, append_assoc, true, ◌||◌, none, some, if◌then◌else◌,
  Bool-cases, inl, inr, Every, Every-append,
}
use kist_data_collector.Common.Text.{Text, text}
use kist_data_collector.Common.Int.{ℤ}
use kist_data_collector.Common.Lacks.{
  Lacks, lacks, lacks-Lacks, Lacks-append, Lacks-decimal, Lacks-decimal_ℤ,
}
use kist_data_collector.Common.Scan.{lines}
use kist_data_collector.Session.{accepted, SessionInfo, StreamSummary, is_empty}
use kist_data_collector.Session.Notes.{format_notes}
use kist_data_collector.Session.Meta.{
  camera_entries, head_lines, stream_entry, stream_entries, tail_lines, label_lines, episode_meta,
  episode_meta-unlines,
}
use kist_data_collector.Session.Reading.{
  strip, IsOther, read_entries, behind_streams, label_in, read_streams, read_result, lines-unlines,
  behind_streams-append, label_in-append, all_other-Every, format_notes-other,
  read_entries-stream_entries,
}

-- The texts that come from outside are single lines.
pub record IsPlain (started_utc dds_config task ended_utc result : Text) (cameras : List Text)
    (streams : List StreamSummary) : Type 0 where
  pub started : Lacks 10 started_utc
  pub dds : Lacks 10 dds_config
  pub task_line : Lacks 10 task
  pub ended : Lacks 10 ended_utc
  pub label : Lacks 10 result
  pub names : Every (Lacks 10) cameras
  pub sources : Every (λ s. Lacks 10 (StreamSummary.source s)) streams
  pub kinds : Every (λ s. Lacks 10 (StreamSummary.stream s)) streams

-- A line that begins with a given text.
begun : (p s : Text) → lacks 10 p ≡ true → Lacks 10 s → Lacks 10 (p ++ s)
begun p s h k = Lacks-append 10 p s (lacks-Lacks 10 p h) k

cameras-Lacks :
    (names : List Text) → Every (Lacks 10) names → Every (Lacks 10) (camera_entries names)
cameras-Lacks [] h = tt
cameras-Lacks (n ∷ ns) (h, hs) = (begun (text "  - ") n refl h, cameras-Lacks ns hs)

cameras-IsOther : (names : List Text) → Every IsOther (camera_entries names)
unfolding strip
cameras-IsOther [] = tt
cameras-IsOther (n ∷ ns) = ((refl, refl), cameras-IsOther ns)

streams-Lacks :
    (ss : List StreamSummary)
    → Every (λ s. Lacks 10 (StreamSummary.source s)) ss
    → Every (λ s. Lacks 10 (StreamSummary.stream s)) ss
    → Every (Lacks 10) (stream_entries ss [])
streams-Lacks [] h k = tt
streams-Lacks (s ∷ ss) (h, hs) (k, ks) = (
  begun (text "  - source: ") s.source refl h,
  (
    begun (text "    stream: ") s.stream refl k,
    (
      begun (text "    received: ") _ refl (Lacks-decimal 10 s.stats.received refl),
      (
        begun (text "    written: ") _ refl (Lacks-decimal 10 s.stats.written refl),
        (
          begun (text "    dropped: ") _ refl (Lacks-decimal 10 s.stats.dropped refl),
          (
            begun (text "    write_errors: ") _ refl (Lacks-decimal 10 s.stats.write_errors refl),
            (
              begun (text "    wire_gaps: ") _ refl (Lacks-decimal 10 s.stats.wire_gaps refl),
              (
                begun (text "    bytes: ") _ refl (Lacks-decimal 10 s.stats.bytes refl),
                streams-Lacks ss hs ks,
              ),
            ),
          ),
        ),
      ),
    ),
  ),
)

streams-unlabelled :
    (ss : List StreamSummary) → Every (λ l. strip (text "result: ") l ≡ none) (stream_entries ss [])
unfolding strip
streams-unlabelled [] = tt
streams-unlabelled (s ∷ ss) =
    (refl, (refl, (refl, (refl, (refl, (refl, (refl, (refl, streams-unlabelled ss))))))))

stream_entries-append :
    (ss : List StreamSummary) (rest : List Text)
    → stream_entries ss [] ++ rest ≡ stream_entries ss rest
stream_entries-append [] rest = refl
stream_entries-append (s ∷ ss) rest = ap (stream_entry s) (stream_entries-append ss rest)

Others-unlabelled :
    (ls : List Text) → Every IsOther ls → Every (λ l. strip (text "result: ") l ≡ none) ls
Others-unlabelled [] h = tt
Others-unlabelled (l ∷ ls) (h, hs) = (h.1, Others-unlabelled ls hs)

module _ (found started_utc : Text) (session : SessionInfo) (domain_id : ℤ) (dds_config : Text)
    (cameras : List Text) (task ended_utc : Text) (ended_ns : ℤ) (streams : List StreamSummary)
    (result : Text) (v : IsPlain started_utc dds_config task ended_utc result cameras streams) where
  head : List Text
  head = head_lines started_utc session domain_id dds_config cameras task

  head-Lacks : Every (Lacks 10) head
  unfolding head head_lines
  head-Lacks = (
    lacks-Lacks 10 (text "session:") refl,
    (
      begun (text "  started_utc: ") started_utc refl v.started,
      (
        begun (text "  started_epoch_ns: ") _ refl (Lacks-decimal_ℤ session.started_ns),
        (
          begun (text "  domain_id: ") _ refl (Lacks-decimal_ℤ domain_id),
          (
            begun (text "  dds_config: ") dds_config refl v.dds,
            (
              begun (text "  task: \"") (task ++ text "\"") refl
                  (Lacks-append 10 task (text "\"") v.task_line (refl, tt)),
              (
                lacks-Lacks 10 (text "cameras:") refl,
                Every-append (Lacks 10) (camera_entries cameras) format_notes
                    (cameras-Lacks cameras v.names)
                    (all_other-Every format_notes format_notes-other).0,
              ),
            ),
          ),
        ),
      ),
    ),
  )

  head-IsOther : Every IsOther head
  unfolding head head_lines strip
  head-IsOther = (
    (refl, refl),
    (
      (refl, refl),
      (
        (refl, refl),
        (
          (refl, refl),
          (
            (refl, refl),
            (
              (refl, refl),
              (
                (refl, refl),
                Every-append IsOther (camera_entries cameras) format_notes (cameras-IsOther cameras)
                    (all_other-Every format_notes format_notes-other).1,
              ),
            ),
          ),
        ),
      ),
    ),
  )

  -- Everything in front of the label.
  body : List Text
  unfolding head
  body = head ++ tail_lines ended_utc ended_ns streams []

  tail-Lacks : Every (Lacks 10) (tail_lines ended_utc ended_ns streams [])
  tail-Lacks = (
    begun (text "ended_utc: ") ended_utc refl v.ended,
    (
      begun (text "ended_epoch_ns: ") _ refl (Lacks-decimal_ℤ ended_ns),
      (lacks-Lacks 10 (text "streams:") refl, streams-Lacks streams v.sources v.kinds),
    ),
  )

  label-Lacks : Every (Lacks 10) (label_lines session result)
  label-Lacks = elim (Bool-cases (is_empty result || is_empty session.dir)) [
    | inl h ↦ rw (h) tt
    | inr h ↦ rw (h) (begun (text "result: ") result refl v.label, tt)
  ]

  abbrev meta : Text
  meta =
      episode_meta accepted accepted accepted found started_utc session domain_id dds_config cameras
        task ended_utc ended_ns streams result

  meta-lines : lines meta ≡ body ++ label_lines session result
  unfolding body head
  meta-lines =
      ap lines (
        episode_meta-unlines found started_utc session domain_id dds_config cameras task ended_utc
          ended_ns streams result)
      ∙ lines-unlines (body ++ label_lines session result) (
          Every-append (Lacks 10) body (label_lines session result)
            (Every-append (Lacks 10) head (tail_lines ended_utc ended_ns streams []) head-Lacks
              tail-Lacks)
            label-Lacks)

  label_entries : read_entries (label_lines session result) ≡ []
  unfolding read_entries
  label_entries = elim (Bool-cases (is_empty result || is_empty session.dir)) [
    | inl h ↦ rw (h) refl
    | inr h ↦ rw (h) refl
  ]

  found_label :
      label_in (label_lines session result)
      ≡ (if is_empty result || is_empty session.dir then none else some result)
  unfolding label_in strip
  found_label = elim (Bool-cases (is_empty result || is_empty session.dir)) [
    | inl h ↦ rw (h) refl
    | inr h ↦ rw (h) refl
  ]

  body-unlabelled : Every (λ l. strip (text "result: ") l ≡ none) body
  unfolding body strip
  body-unlabelled =
      Every-append (λ l. strip (text "result: ") l ≡ none) head
        (tail_lines ended_utc ended_ns streams []) (Others-unlabelled head head-IsOther)
        (refl, (refl, (refl, streams-unlabelled streams)))

  found_streams : read_entries (behind_streams (body ++ label_lines session result)) ≡ streams
  unfolding body behind_streams
  found_streams =
      ap (λ ls. read_entries (behind_streams ls))
        (append_assoc head (tail_lines ended_utc ended_ns streams []) (label_lines session result))
      ∙ ap read_entries (
          behind_streams-append head
            (tail_lines ended_utc ended_ns streams [] ++ label_lines session result) head-IsOther)
      ∙ ap read_entries (stream_entries-append streams (label_lines session result))
      ∙ read_entries-stream_entries streams (label_lines session result) label_entries

  -- A reader of meta.yaml finds every stream of the episode, in order, with its source, its kind and
  -- its six counters, and the label exactly if one was given to a session that has a directory, if
  -- the file system took what was written and none of the texts that come from outside holds the end
  -- of a line.
  pub read-episode_meta :
      (read_streams meta ≡ streams)
      × (read_result meta ≡ (if is_empty result || is_empty session.dir then none else some result))
  unfolding read_streams read_result
  read-episode_meta = (
    ap (λ ls. read_entries (behind_streams ls)) meta-lines ∙ found_streams,
    ap label_in meta-lines
        ∙ label_in-append body (label_lines session result) body-unlabelled
        ∙ found_label,
  )
