-- ===== src/Session/Reading.antt =====
-- A reader of meta.yaml (src/common/session.cpp) by lines: the streams that it lists, with their
-- counters, and the label.
use kist_data_collector.Common.{
  ℕ, ◌≡◌, refl, sym, ap, ◌∙◌, List, [], ◌∷◌, ◌++◌, append-nil, append_assoc, Bool, true, false, not,
  ◌&&◌, Option, none, some, if◌then◌else◌, ◌==◌, arith, Every,
}
use kist_data_collector.Common.Text.{Text, text, decimal, newline}
use kist_data_collector.Common.Lacks.{Lacks, lacks, lacks-Lacks}
use kist_data_collector.Common.Scan.{lines, lines-line, scan_unsigned, scan_unsigned-decimal}
use kist_data_collector.Outcome.{◌>>=◌}
use kist_data_collector.Session.{StreamSummary, unlines, is_empty}
use kist_data_collector.Session.Notes.{format_notes, utf8}
use kist_data_collector.Session.Meta.{stream_entry, stream_entries}

-- The reader. What stands behind a prefix.
unfoldable pub strip : Text → Text → Option Text
strip [] s = some s
strip (c ∷ p) [] = none
strip (c ∷ p) (d ∷ s) = let rest = strip p s in if c == d then rest else none

abbrev pub is_nothing : Option Text → Bool
is_nothing none = true
is_nothing (some t) = false

abbrev pub same_text : Text → Text → Bool
same_text [] [] = true
same_text (c ∷ s) (d ∷ t) = c == d && same_text s t
same_text _ _ = false

-- A number and nothing behind it.
abbrev pub whole : ℕ × Text → Option ℕ
whole (n, rest) = if is_empty rest then some n else none

unfoldable pub number : Text → Text → Option ℕ
number key l = do s ← strip key l; n ← scan_unsigned s; whole n

unfoldable pub read_entry :
    Text → Text → Text → Text → Text → Text → Text → Text → Option StreamSummary
read_entry a b c d e f g h = do
  source ← strip (text "  - source: ") a
  stream ← strip (text "    stream: ") b
  received ← number (text "    received: ") c
  written ← number (text "    written: ") d
  dropped ← number (text "    dropped: ") e
  write_errors ← number (text "    write_errors: ") f
  wire_gaps ← number (text "    wire_gaps: ") g
  bytes ← number (text "    bytes: ") h
  some (record {
    source = source;
    stream = stream;
    stats = record {
      received = received;
      written = written;
      dropped = dropped;
      write_errors = write_errors;
      wire_gaps = wire_gaps;
      bytes = bytes;
    };
  })

abbrev entries_with : List StreamSummary → Option StreamSummary → List StreamSummary
entries_with later none = []
entries_with later (some s) = s ∷ later

-- Entries of eight lines, up to the first that is none.
unfoldable pub read_entries : List Text → List StreamSummary
read_entries (a ∷ b ∷ c ∷ d ∷ e ∷ f ∷ g ∷ h ∷ rest) =
    entries_with (read_entries rest) (read_entry a b c d e f g h)
read_entries _ = []

-- The lines behind `streams:`.
unfoldable pub behind_streams : List Text → List Text
behind_streams [] = []
behind_streams (l ∷ ls) = if same_text l (text "streams:") then ls else behind_streams ls

unfoldable pub read_streams : Text → List StreamSummary
read_streams meta = read_entries (behind_streams (lines meta))

unfoldable pub label_in : List Text → Option Text
label_in [] = none
label_in (l ∷ ls) = elim (strip (text "result: ") l) [ none ↦ label_in ls | some r ↦ some r ]

unfoldable pub read_result : Text → Option Text
read_result meta = label_in (lines meta)

pub strip-append : (p s : Text) → strip p (p ++ s) ≡ some s
unfolding strip
strip-append [] s = refl
strip-append (c ∷ p) s = ground (arith, strip-append p s)

number-decimal : (key : Text) (n : ℕ) → number key (key ++ decimal n) ≡ some n
unfolding number
number-decimal key n =
    ap (λ (o : Option Text). o >>= λ s. scan_unsigned s >>= whole) (strip-append key (decimal n))
    ∙ ap (λ s. scan_unsigned s >>= whole) (sym (append-nil (decimal n)))
    ∙ ap (λ (o : Option (ℕ × Text)). o >>= whole) (scan_unsigned-decimal n [] tt)

bind_some : {A B : Type 0} (o : Option A) (f : A → Option B) {a : A} → o ≡ some a → (o >>= f) ≡ f a
bind_some o f e = ap (λ o. o >>= f) e

-- The lines of an entry are read as the entry.
read_entry-lines :
    (s : StreamSummary)
    → read_entry
        (text "  - source: " ++ s.source)
        (text "    stream: " ++ s.stream)
        (text "    received: " ++ decimal s.stats.received)
        (text "    written: " ++ decimal s.stats.written)
        (text "    dropped: " ++ decimal s.stats.dropped)
        (text "    write_errors: " ++ decimal s.stats.write_errors)
        (text "    wire_gaps: " ++ decimal s.stats.wire_gaps)
        (text "    bytes: " ++ decimal s.stats.bytes)
      ≡ some s
unfolding read_entry
read_entry-lines s =
    bind_some _ _ (strip-append (text "  - source: ") s.source)
    ∙ bind_some _ _ (strip-append (text "    stream: ") s.stream)
    ∙ bind_some _ _ (number-decimal (text "    received: ") s.stats.received)
    ∙ bind_some _ _ (number-decimal (text "    written: ") s.stats.written)
    ∙ bind_some _ _ (number-decimal (text "    dropped: ") s.stats.dropped)
    ∙ bind_some _ _ (number-decimal (text "    write_errors: ") s.stats.write_errors)
    ∙ bind_some _ _ (number-decimal (text "    wire_gaps: ") s.stats.wire_gaps)
    ∙ bind_some _ _ (number-decimal (text "    bytes: ") s.stats.bytes)

read_entries-stream_entry :
    (s : StreamSummary) (rest : List Text)
    → read_entries (stream_entry s rest) ≡ s ∷ read_entries rest
unfolding read_entries
read_entries-stream_entry s rest = ap (entries_with (read_entries rest)) (read_entry-lines s)

pub read_entries-stream_entries :
    (ss : List StreamSummary) (rest : List Text)
    → read_entries rest ≡ []
    → read_entries (stream_entries ss rest) ≡ ss
read_entries-stream_entries [] rest h = h
read_entries-stream_entries (s ∷ ss) rest h =
    read_entries-stream_entry s (stream_entries ss rest)
    ∙ ap (◌∷◌ s) (read_entries-stream_entries ss rest h)

pub lines-unlines : (ls : List Text) → Every (Lacks 10) ls → lines (unlines ls) ≡ ls
unfolding lines
lines-unlines [] h = refl
lines-unlines (l ∷ ls) (h, hs) =
    ap lines (append_assoc l newline (unlines ls))
    ∙ lines-line l (unlines ls) h
    ∙ ap (◌∷◌ l) (lines-unlines ls hs)

-- A line that is neither `streams:` nor a label.
abbrev pub IsOther : Text → Type 0
IsOther l = (same_text l (text "streams:") ≡ false) × (strip (text "result: ") l ≡ none)

pub behind_streams-append :
    (xs ys : List Text) → Every IsOther xs → behind_streams (xs ++ ys) ≡ behind_streams ys
unfolding behind_streams
behind_streams-append [] ys h = refl
behind_streams-append (x ∷ xs) ys ((h, k), hs) = rw (h) (behind_streams-append xs ys hs)

pub label_in-append :
    (xs ys : List Text)
    → Every (λ l. strip (text "result: ") l ≡ none) xs
    → label_in (xs ++ ys) ≡ label_in ys
unfolding label_in
label_in-append [] ys h = refl
label_in-append (x ∷ xs) ys (h, hs) = rw (h, label_in) (label_in-append xs ys hs)

-- The test of a given line: it can stand among the others.
abbrev pub is_other : Text → Bool
is_other l =
    lacks 10 l && not (same_text l (text "streams:")) && is_nothing (strip (text "result: ") l)

pub all_other : (ls : List Text) → Bool
all_other [] = true
all_other (l ∷ ls) = is_other l && all_other ls

pub all_other-Every :
    (ls : List Text) → all_other ls ≡ true → Every (Lacks 10) ls × Every IsOther ls
unfolding all_other
all_other-Every [] h = (tt, tt)
all_other-Every (l ∷ ls) h =
    let (lack, other) = all_other-Every ls (ground (arith, h)) in
    ((lacks-Lacks 10 l (ground (arith, h)), lack), ((ground (arith, h), ground (arith, h)), other))

pub format_notes-other : all_other format_notes ≡ true
unfolding all_other format_notes utf8 strip
format_notes-other = refl
