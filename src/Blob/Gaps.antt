-- ===== src/Blob/Gaps.antt =====
-- `wire_gaps` (the sequence bookkeeping of `run` in include/common/blob_recorder.hpp) against the
-- sequence numbers that the written frames skip.
use kist_data_collector.Common.{
  ℕ, ◌+◌, ◌-◌, ◌≤◌, ◌<◌, ◌≡◌, refl, sym, ap, ◌∙◌, List, [], ◌∷◌, ◌++◌, Bool, true, false, length,
  subst, arith, u64, u64_mod, some,
}
use kist_data_collector.Common.Text.{Text}
use kist_data_collector.Common.Int.{ℤ}
use kist_data_collector.Stream.{Fate}
use kist_data_collector.Pipeline.{Recorder}
use kist_data_collector.Pipeline.Threads.{System, Reach, launched}
use kist_data_collector.Pipeline.Output.{Describes, Reach-Holds}
use kist_data_collector.Blob.{
  FrameType, BlobOut, Fates, write_frame, blob_writer, track, count, open_blob, fresh_blob,
}
use kist_data_collector.Blob.Sink.{BlobSink, append}
use kist_data_collector.Blob.Index.{Frames}
use kist_data_collector.Blob.Losses.{open_blob-Opened}

-- The sequence numbers rise, from above `low`, and fit uint64_t.
abbrev pub Rises : ℕ → List ℕ → Type 0
Rises low [] = Unit {0}
Rises low (n ∷ ns) = (low < n) × (n < u64_mod) × Rises n ns

abbrev pub last_of : ℕ → List ℕ → ℕ
last_of n [] = n
last_of n (m ∷ ms) = last_of m ms

-- The bookkeeping alone, over a list of sequence numbers.
pub track_all : List ℕ → BlobOut → BlobOut
track_all [] o = o
track_all (n ∷ ns) o = track_all ns (track n o)

track_all-snoc :
    (ns : List ℕ) (n : ℕ) (o : BlobOut) → track_all (ns ++ n ∷ []) o ≡ track n (track_all ns o)
unfolding track_all
track_all-snoc [] n o = refl
track_all-snoc (m ∷ ms) n o = track_all-snoc ms n (track m o)

track_step :
    (n : ℕ) (o : BlobOut)
    → o.have_seq ≡ true
    → o.last_seq < n
    → n < u64_mod
    → u64 ((track n o).wire_gaps + 1 + o.last_seq) ≡ u64 (o.wire_gaps + n)
unfolding track
track_step n o h above fits = ground arith

track-lt : (n : ℕ) (o : BlobOut) → o.wire_gaps < u64_mod → (track n o).wire_gaps < u64_mod
unfolding track
track-lt n o h = ground arith

track_all-lt :
    (ns : List ℕ) (o : BlobOut) → o.wire_gaps < u64_mod → (track_all ns o).wire_gaps < u64_mod
unfolding track_all
track_all-lt [] o h = h
track_all-lt (n ∷ ns) o h = track_all-lt ns (track n o) (track-lt n o h)

-- Behind a frame with number `o.last_seq`, rising numbers add exactly those that are missing.
track_all-gaps :
    (ns : List ℕ) (o : BlobOut)
    → o.have_seq ≡ true
    → Rises o.last_seq ns
    → u64 ((track_all ns o).wire_gaps + length ns + o.last_seq)
      ≡ u64 (o.wire_gaps + last_of o.last_seq ns)
unfolding track_all track
track_all-gaps [] o h r = ground arith
track_all-gaps (n ∷ ns) o h (above, fits, r) =
    omega (arith, track_all-gaps ns (track n o) refl r, track_step n o h above fits)

Rises-last_of :
    (n : ℕ) (ns : List ℕ)
    → n < u64_mod
    → Rises n ns
    → (n + length ns ≤ last_of n ns) × (last_of n ns < u64_mod)
Rises-last_of n [] b r = omega arith
Rises-last_of n (m ∷ ms) b (above, fits, r) = omega (arith, Rises-last_of m ms fits r)

first_gaps :
    (n : ℕ) (ns : List ℕ) (o : BlobOut)
    → o.have_seq ≡ false
    → o.wire_gaps ≡ 0
    → n < u64_mod
    → Rises n ns
    → (track_all (n ∷ ns) o).wire_gaps ≡ last_of n ns - n - length ns
unfolding track_all track
first_gaps n ns o h z b r = ground (
  arith,
  track_all-gaps ns (track n o) refl r,
  track_all-lt ns (track n o),
  Rises-last_of n ns b r,
)

-- Two outputs agree on the sequence bookkeeping.
pub record Agree (o o' : BlobOut) : Type 0 where
  pub gaps : o.wire_gaps ≡ o'.wire_gaps
  pub last : o.last_seq ≡ o'.last_seq
  pub have : o.have_seq ≡ o'.have_seq

track-Agree : (n : ℕ) (o o' : BlobOut) → Agree o o' → Agree (track n o) (track n o')
unfolding track
track-Agree n o o' v = ground arith

count-Agree :
    (size : ℕ) (o o' : BlobOut) (r : BlobSink × Bool) → Agree o o' → Agree (count size o r) o'
unfolding count
count-Agree size o o' (sink, true) v = record { gaps = v.gaps; last = v.last; have = v.have }
count-Agree size o o' (sink, false) v = record { gaps = v.gaps; last = v.last; have = v.have }

module _ (F : FrameType) where
  abbrev pub sequences : Frames F → List ℕ
  sequences [] = []
  sequences ((f, t) ∷ xs) = F.sequence f ∷ sequences xs

  sequences-snoc :
      (xs : Frames F) (f : F.Frame) (t : ℤ)
      → sequences (xs ++ (f, t) ∷ []) ≡ sequences xs ++ F.sequence f ∷ []
  sequences-snoc [] f t = refl
  sequences-snoc ((g, u) ∷ xs) f t = ap (◌∷◌ (F.sequence g)) (sequences-snoc xs f t)

  abbrev Tracks : BlobOut → Frames F → BlobOut → Type 0
  Tracks start p o = Agree o (track_all (sequences p) start)

  write_frame-Tracks :
      (start : BlobOut) (c : Fates) (p : Frames F) (x : F.Frame × ℤ) (o : BlobOut)
      → Tracks start p o
      → Tracks start (p ++ x ∷ []) (write_frame F c x o)
  unfolding write_frame
  write_frame-Tracks start c p (f, t) o v =
      count-Agree (length (F.payload f)) (track (F.sequence f) o) _
        (append c.on_data c.on_index (F.payload f) (F.row f t) o.sink)
        (subst (Agree (track (F.sequence f) o))
          (sym (
            ap (λ ns. track_all ns start) (sequences-snoc p f t)
            ∙ track_all-snoc (sequences p) (F.sequence f) start))
          (track-Agree (F.sequence f) o _ v))

  Tracks-Describes : (start : BlobOut) → Describes (blob_writer F) (Tracks start)
  Tracks-Describes start = record {
    on_write = write_frame-Tracks start;
    on_flush = λ c p o v. record { gaps = v.gaps; last = v.last; have = v.have };
    on_close = λ c p o v. record { gaps = v.gaps; last = v.last; have = v.have };
  }

  -- For a BlobRecorder opened for the first time, under every interleaving: if the sequence numbers of
  -- the frames that the writer has come to rise and fit uint64_t, and there is such a frame, then
  -- `wire_gaps` is how many numbers between the first and the last of them are missing, whether the
  -- frame was lost before it arrived or dropped by the queue.
  pub wire_gaps-exact :
      (fate : Fate) (header : Text) (capacity : ℕ) {r : Recorder (blob_writer F)} {a p : Frames F}
      {s : System (blob_writer F)} (n : ℕ) (ns : List ℕ)
      → open_blob F true true fate header capacity (fresh_blob F) ≡ some (r, true)
      → Reach (launched r) a p s
      → sequences p ≡ n ∷ ns
      → n < u64_mod
      → Rises n ns
      → s.rec.out.wire_gaps ≡ last_of n ns - n - length ns
  unfolding track_all
  wire_gaps-exact fate header capacity {r} {a} {p} {s} n ns e l q b rises =
      let o = open_blob-Opened F fate header capacity (fresh_blob F) e in
      let v =
        Reach-Holds (Tracks r.out) (Tracks-Describes r.out) {r = r}
          (record { gaps = refl; last = refl; have = refl }) l in
      v.gaps
      ∙ ap (λ ms. BlobOut.wire_gaps (track_all ms r.out)) q
      ∙ first_gaps n ns r.out (ap BlobOut.have_seq o.out) (ap BlobOut.wire_gaps o.out) b rises
