-- ===== src/Blob/Contents.antt =====
-- The two files of a BlobRecorder under every interleaving (include/common/blob_recorder.hpp): as
-- long as a file's stream is good it holds exactly what the written frames call for.
use kist_data_collector.Common.{
  Bool, ℕ, ◌+◌, ◌≡◌, refl, sym, ap, ◌∙◌, [], ◌∷◌, ◌++◌, append_assoc, true, false, length, subst,
  u64,
}
use kist_data_collector.Common.Text.{Text}
use kist_data_collector.Common.Int.{ℤ}
use kist_data_collector.Stream.{write}
use kist_data_collector.Stream.File.{File, File-write, File-flush, File-close}
use kist_data_collector.Pipeline.{Recorder}
use kist_data_collector.Pipeline.Threads.{System, Reach, launched}
use kist_data_collector.Pipeline.Output.{Describes, Reach-Holds}
use kist_data_collector.Blob.{FrameType, BlobOut, Fates, write_frame, blob_writer, track, count}
use kist_data_collector.Blob.Sink.{BlobSink, index_line, append, flush_sink, close_sink}
use kist_data_collector.Blob.Index.{
  Frames, blob_bytes, index_text, offset_after, blob_bytes-snoc, index_text-snoc, offset_after-snoc,
}

count-sink : (size : ℕ) (o : BlobOut) (r : BlobSink × Bool) → (count size o r).sink ≡ r.0
unfolding count
count-sink size o (sink, true) = refl
count-sink size o (sink, false) = refl

module _ (F : FrameType) (header : Text) (offset : ℕ) where
  -- The blob, the index and `offset_` when the frames `p` have been written, for a sink whose
  -- `offset_` was `offset` when it was opened.
  pub record Files (p : Frames F) (sink : BlobSink) : Type 0 where
    pub blob : File (blob_bytes F p) sink.data_file
    pub index : File (header ++ index_text F offset p) sink.index_file
    pub next_at : sink.offset ≡ offset_after F offset p

  append-Files :
      (c : Fates) (p : Frames F) (f : F.Frame) (t : ℤ) (sink : BlobSink)
      → Files p sink
      → Files (p ++ (f, t) ∷ []) (append c.on_data c.on_index (F.payload f) (F.row f t) sink).0
  unfolding append
  append-Files c p f t sink v = record {
    blob =
        subst (λ b. File b (write c.on_data (F.payload f) sink.data_file))
          (sym (blob_bytes-snoc F p f t)) (File-write c.on_data _ _ _ v.blob);
    index =
        subst (λ b. File b (write c.on_index line sink.index_file))
          (append_assoc header _ line
            ∙ ap (λ (o : ℕ). header ++ (index_text F offset p ++ index_line (F.row f t) o size))
                v.next_at
            ∙ ap (◌++◌ header) (sym (index_text-snoc F offset p f t)))
          (File-write c.on_index _ line _ v.index);
    next_at = ap (λ (o : ℕ). u64 (o + size)) v.next_at ∙ sym (offset_after-snoc F offset p f t);
  }
    where
      size : ℕ
      size = length (F.payload f)

      line : Text
      line = index_line (F.row f t) sink.offset size

  pub write_frame-Files :
      (c : Fates) (p : Frames F) (x : F.Frame × ℤ) (o : BlobOut)
      → Files p o.sink
      → Files (p ++ x ∷ []) (write_frame F c x o).sink
  unfolding write_frame
  write_frame-Files c p (f, t) o v =
      subst (Files (p ++ (f, t) ∷ []))
        (sym (count-sink (length (F.payload f)) (track (F.sequence f) o) _))
        (append-Files c p f t o.sink v)

  Files-Describes : Describes (blob_writer F) (λ p o. Files p o.sink)
  unfolding flush_sink close_sink
  Files-Describes = record {
    on_write = write_frame-Files;
    on_flush = λ c p o v. record {
      blob = File-flush c.on_data _ _ v.blob;
      index = File-flush c.on_index _ _ v.index;
      next_at = v.next_at;
    };
    on_close = λ c p o v. record {
      blob = File-close c.on_data _ _ v.blob;
      index = File-close c.on_index _ _ v.index;
      next_at = v.next_at;
    };
  }

  -- In every state reached from a recorder whose files were just opened, each file whose stream is
  -- good holds exactly the bytes that the written frames call for: the payloads end to end, and
  -- the header with one row for each frame.
  pub Reach-Files :
      {r : Recorder (blob_writer F)} {a p : Frames F} {s : System (blob_writer F)}
      → Files [] r.out.sink
      → Reach (launched r) a p s
      → Files p s.rec.out.sink
  Reach-Files = Reach-Holds (λ p o. Files p o.sink) Files-Describes
