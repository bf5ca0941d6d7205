-- ===== src/Export/Mp4/Complete.antt =====
-- When a run of src/export/export_color_to_mp4.cpp reports success, and what it has then written.
use kist_data_collector.Common.{
  ℕ, suc, ◌+◌, ◌≤◌, ◌<◌, ◌≡◌, refl, sym, ap, ◌∙◌, List, [], ◌∷◌, ◌++◌, append_assoc, append-nil,
  true, false, if-holds, arith, length, take,
}
use kist_data_collector.Common.Text.{Text}
use kist_data_collector.Common.Int.{ℤ}
use kist_data_collector.Export.ColorIndex.{Mp4Row}
use kist_data_collector.Export.Mp4.{
  Muxing, Mux, Packet, mux_loop, packet_of, written, fresh_mux, remux,
}

abbrev pub payloads : List Packet → List Text
payloads [] = []
payloads (p ∷ ps) = p.payload ∷ payloads ps

-- What the loop appended when it ended with `n`, from `m` on.
abbrev After : List Text → Mux → Mux → Type 0
After packets m n =
    (more : List Packet) × (n.sent ≡ m.sent ++ more)
    × (n.i ≡ m.i + length more)
    × (payloads more ≡ take (length more) packets)

module _ (e : Muxing) (t0 : ℤ) where
  loop-After :
      (packets : List Text) (rows : List Mp4Row) (m : Mux)
      → After packets m (mux_loop e t0 packets rows m)
  unfolding mux_loop
  loop-After [] rows m = ([], sym (append-nil m.sent), omega arith, refl)
  loop-After (payload ∷ packets) [] m = ([], sym (append-nil m.sent), omega arith, refl)
  loop-After (payload ∷ packets) (r ∷ rows) m =
      let p : Packet = packet_of e t0 payload r rows m.last_pts in
      if-holds (After (payload ∷ packets) m) (e.cancelled m.i) _ _ (λ _. nothing m.sent)
        λ _.
          if-holds (After (payload ∷ packets) m) (e.accepts m.i) _ _
            (λ _.
              let (more, same, count, sent) = loop-After packets rows (written e t0 p m) in
              (
                p ∷ more,
                same ∙ append_assoc m.sent (p ∷ []) more,
                omega (arith, count),
                ap (◌∷◌ payload) sent,
              ))
            λ _. nothing m.sent
    where
      nothing :
          (sent : List Packet)
          → (more : List Packet) × (sent ≡ sent ++ more)
            × (m.i ≡ m.i + length more)
            × (payloads more ≡ take (length more) (payload ∷ packets))
      nothing sent = ([], sym (append-nil sent), omega arith, refl)

  -- With enough packets, no cancellation and no write refused, the loop takes every row.
  loop-all :
      (packets : List Text) (rows : List Mp4Row) (m : Mux)
      → length rows ≤ length packets
      → ((i : ℕ) → e.cancelled i ≡ false)
      → ((i : ℕ) → e.accepts i ≡ true)
      → ((mux_loop e t0 packets rows m).i ≡ m.i + length rows)
        × ((mux_loop e t0 packets rows m).write_ok ≡ m.write_ok)
  unfolding mux_loop
  loop-all [] [] m h c a = (omega arith, refl)
  loop-all [] (r ∷ rows) m h c a = absurd (omega arith)
  loop-all (payload ∷ packets) [] m h c a = (omega arith, refl)
  loop-all (payload ∷ packets) (r ∷ rows) m h c a =
      let p : Packet = packet_of e t0 payload r rows m.last_pts in
      let (count, ok) = loop-all packets rows (written e t0 p m) (omega arith) c a in
      rw (c m.i, a m.i) (omega (arith, count), ok)

-- A run that reports success has written one packet for each frame from the first keyframe on: the
-- demuxer's packets, in order. It has closed the blob.
pub remux_ok :
    (e : Muxing) (bytes : Text) (rows : List Mp4Row)
    → (remux e bytes rows).ok ≡ true
    → (length (remux e bytes rows).sent ≡ length rows)
      × (payloads (remux e bytes rows).sent ≡ take (length rows) (e.demux bytes))
      × ((remux e bytes rows).blob_open ≡ false)
unfolding remux
remux_ok e bytes [] h = ground (arith, h)
remux_ok e bytes (r ∷ rows) h =
    let (more, same, count, sent) = loop-After e r.recv_ns (e.demux bytes) (r ∷ rows) fresh_mux in
    let all : length more ≡ suc (length rows) = ground (arith, h, count) in
    (ap length same ∙ all, ap payloads same ∙ sent ∙ ap (λ n. take n (e.demux bytes)) all, refl)

-- A run succeeds if nothing cancels it, the muxer refuses no packet and the demuxer gives at least
-- one packet for each frame from the first keyframe on, of which there is one.
pub remux_succeeds :
    (e : Muxing) (bytes : Text) (rows : List Mp4Row)
    → 0 < length rows
    → length rows ≤ length (e.demux bytes)
    → ((i : ℕ) → e.cancelled i ≡ false)
    → e.cancelled_at_end ≡ false
    → ((i : ℕ) → e.accepts i ≡ true)
    → (remux e bytes rows).ok ≡ true
unfolding remux
remux_succeeds e bytes [] some_row h c end a = absurd (omega arith)
remux_succeeds e bytes (r ∷ rows) some_row h c end a =
    let (count, ok) = loop-all e r.recv_ns (e.demux bytes) (r ∷ rows) fresh_mux h c a in
    ground (arith, count, ok, end)
