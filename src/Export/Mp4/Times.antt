-- ===== src/Export/Mp4/Times.antt =====
-- The time stamps of the packets that src/export/export_color_to_mp4.cpp writes.
use kist_data_collector.Common.{
  ℕ, ◌+◌, ◌*◌, ◌/◌, ◌<◌, ◌≡◌, refl, sym, ap, ◌∙◌, List, [], ◌∷◌, ◌++◌, append_assoc, append-nil,
  true, false, if◌then◌else◌, if-holds, arith, length, take, subst,
}
use kist_data_collector.Common.Text.{Text}
use kist_data_collector.Common.Int.{ℤ, pos, negsuc, ◌+ℤ◌, ◌-ℤ◌, ◌<ℤ◌, leb_ℤ}
use kist_data_collector.Export.ColorIndex.{Mp4Row}
use kist_data_collector.Export.Mp4.{
  Muxing, Mux, Packet, mux_loop, packet_of, written, row_us, thousandth, fresh_mux, int64_min,
  remux,
}

-- From `last` on, each number is greater than the one before.
abbrev pub Increasing : ℤ → List ℤ → Type 0
Increasing last [] = Unit {0}
Increasing last (n ∷ ns) = (last <ℤ n) × Increasing n ns

abbrev pub times : List Packet → List ℤ
times [] = []
times (p ∷ ps) = p.pts ∷ times ps

next_greater : (n : ℤ) → n <ℤ n +ℤ pos 1
unfolding ◌+ℤ◌
next_greater (pos n) = ground arith
next_greater (negsuc n) = ground arith

not_leb : (a b : ℤ) → leb_ℤ a b ≡ false → b <ℤ a
not_leb a b h = ground (arith, h)

leb_not : (a b : ℤ) → leb_ℤ a b ≡ true → ¬ (b <ℤ a)
leb_not a b h = ground (arith, h)

stamp-greater : (ts last : ℤ) → last <ℤ (if leb_ℤ ts last then last +ℤ pos 1 else ts)
stamp-greater ts last =
    if-holds (λ n. last <ℤ n) (leb_ℤ ts last) _ _ (λ _. next_greater last) λ h. not_leb ts last h

stamp-later : (ts last : ℤ) → last <ℤ ts → (if leb_ℤ ts last then last +ℤ pos 1 else ts) ≡ ts
stamp-later ts last h =
    if-holds (λ n. n ≡ ts) (leb_ℤ ts last) _ _ (λ k. absurd (leb_not ts last k h)) λ _. refl

module _ (e : Muxing) (t0 : ℤ) where
  -- What the loop appends, from any state.
  loop_appends :
      (packets : List Text) (rows : List Mp4Row) (m : Mux)
      → (more : List Packet) × ((mux_loop e t0 packets rows m).sent ≡ m.sent ++ more)
        × Increasing m.last_pts (times more)
  unfolding mux_loop
  loop_appends [] rows m = ([], sym (append-nil m.sent), tt)
  loop_appends (payload ∷ packets) [] m = ([], sym (append-nil m.sent), tt)
  loop_appends (payload ∷ packets) (r ∷ rows) m =
      let p : Packet = packet_of e t0 payload r rows m.last_pts in
      if-holds Appends (e.cancelled m.i) _ _ (λ _. nothing)
        λ _.
          if-holds Appends (e.accepts m.i) _ _
            (λ _.
              let (more, same, up) = loop_appends packets rows (written e t0 p m) in
              (
                p ∷ more,
                same ∙ append_assoc m.sent (p ∷ []) more,
                (stamp-greater (e.rescale (row_us e t0 r)) m.last_pts, up),
              ))
            λ _. nothing
    where
      Appends : Mux → Type 0
      Appends n =
          (more : List Packet) × (n.sent ≡ m.sent ++ more) × Increasing m.last_pts (times more)

      nothing :
          (more : List Packet) × (m.sent ≡ m.sent ++ more) × Increasing m.last_pts (times more)
      nothing = ([], sym (append-nil m.sent), tt)

  -- Whatever the arrival times, the packets of a run carry strictly increasing time stamps.
  pub mux_loop-Increasing :
      (packets : List Text) (rows : List Mp4Row)
      → Increasing int64_min (times (mux_loop e t0 packets rows fresh_mux).sent)
  mux_loop-Increasing packets rows =
      let (more, same, up) = loop_appends packets rows fresh_mux in
      subst (λ ps. Increasing int64_min (times ps)) (sym same) up

-- Microseconds in ticks of 1/90000 s, to the nearest.
abbrev pub tick : ℕ → ℕ
tick us = (us * 9 + 50) / 100

abbrev pub ticks : List ℕ → List ℤ
ticks [] = []
ticks (us ∷ later) = pos (tick us) ∷ ticks later

-- Row after row arrived that many whole microseconds behind `t0`, and some nanoseconds.
abbrev pub Arrived : ℤ → List ℕ → List Mp4Row → Type 0
Arrived t0 (us ∷ later) (r ∷ rows) =
    ((ns : ℕ) × (ns < 1000) × (r.recv_ns ≡ t0 +ℤ pos (us * 1000 + ns))) × Arrived t0 later rows
Arrived t0 [] [] = Unit {0}
Arrived t0 _ _ = ⊥

sum_less : (t0 : ℤ) (n : ℕ) → (t0 +ℤ pos n) -ℤ t0 ≡ pos n
unfolding ◌+ℤ◌ ◌-ℤ◌
sum_less (pos m) n = ground arith
sum_less (negsuc m) n = ground arith

microseconds : (us ns : ℕ) → ns < 1000 → (us * 1000 + ns) / 1000 ≡ us
microseconds us ns h = omega (arith, h)

row_us-arrived :
    (e : Muxing) (t0 : ℤ) (r : Mp4Row) (us ns : ℕ)
    → ns < 1000
    → r.recv_ns ≡ t0 +ℤ pos (us * 1000 + ns)
    → row_us e t0 r ≡ pos us
row_us-arrived e t0 r us ns h k =
    ap (λ t. thousandth (t -ℤ t0)) k
    ∙ ap thousandth (sum_less t0 (us * 1000 + ns))
    ∙ ap pos (microseconds us ns h)

module _ (e : Muxing) (t0 : ℤ) (rounds : (us : ℕ) → e.rescale (pos us) ≡ pos (tick us)) where
  exact :
      (packets : List Text) (rows : List Mp4Row) (us : List ℕ) (m : Mux)
      → Arrived t0 us rows
      → Increasing m.last_pts (ticks us)
      → (more : List Packet) × ((mux_loop e t0 packets rows m).sent ≡ m.sent ++ more)
        × (times more ≡ take (length more) (ticks us))
  unfolding mux_loop
  exact [] rows us m a h = ([], sym (append-nil m.sent), refl)
  exact (payload ∷ packets) [] us m a h = ([], sym (append-nil m.sent), refl)
  exact (payload ∷ packets) (r ∷ rows) [] m a h = elim a [ ]
  exact (payload ∷ packets) (r ∷ rows) (u ∷ us) m ((ns, small, arrived), on) (here, later) =
      let p : Packet = packet_of e t0 payload r rows m.last_pts in
      let rescaled : e.rescale (row_us e t0 r) ≡ pos (tick u) =
        ap e.rescale (row_us-arrived e t0 r u ns small arrived) ∙ rounds u in
      let on_time : p.pts ≡ pos (tick u) =
        ap (λ t. if leb_ℤ t m.last_pts then m.last_pts +ℤ pos 1 else t) rescaled
        ∙ stamp-later (pos (tick u)) m.last_pts here in
      if-holds Appends (e.cancelled m.i) _ _ (λ _. nothing)
        λ _.
          if-holds Appends (e.accepts m.i) _ _
            (λ _.
              let (more, same, times_same) =
                exact packets rows us (written e t0 p m) on
                  (subst (λ n. Increasing n (ticks us)) (sym on_time) later) in
              (
                p ∷ more,
                same ∙ append_assoc m.sent (p ∷ []) more,
                ap (λ n. n ∷ times more) on_time ∙ ap (◌∷◌ (pos (tick u))) times_same,
              ))
            λ _. nothing
    where
      Appends : Mux → Type 0
      Appends n =
          (more : List Packet) × (n.sent ≡ m.sent ++ more)
          × (times more ≡ take (length more) (ticks (u ∷ us)))

      nothing :
          (more : List Packet) × (m.sent ≡ m.sent ++ more)
          × (times more ≡ take (length more) (ticks (u ∷ us)))
      nothing = ([], sym (append-nil m.sent), refl)

-- If no frame arrived before the keyframe that the exporter starts with, and the whole microseconds
-- since then, rounded to ticks of 1/90000 s, are strictly increasing, then every packet of the mp4 file
-- carries exactly those ticks of its row, provided that av_rescale_q rounds to the nearest tick.
pub remux-ticks :
    (e : Muxing) (bytes : Text) (r : Mp4Row) (rows : List Mp4Row) (us : List ℕ)
    → ((us : ℕ) → e.rescale (pos us) ≡ pos (tick us))
    → Arrived r.recv_ns us (r ∷ rows)
    → Increasing int64_min (ticks us)
    → let sent = (remux e bytes (r ∷ rows)).sent in times sent ≡ take (length sent) (ticks us)
unfolding remux
remux-ticks e bytes r rows us rounds a h =
    let (more, same, times_same) =
      exact e r.recv_ns rounds (e.demux bytes) (r ∷ rows) us fresh_mux a h in
    subst (λ ps. times ps ≡ take (length ps) (ticks us)) (sym same) times_same
