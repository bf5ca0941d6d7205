-- ===== src/Pipeline/Serial/Steady.antt =====
-- What holds of a recorder between two calls (include/common/blob_recorder.hpp, row_recorder.hpp).
use kist_data_collector.Common.{
  ℕ, ◌+◌, ◌≡◌, refl, sym, ap, ◌∙◌, List, [], ◌∷◌, true, false, length, arith, if-holds,
  length-append, u64, ◌⊎◌, inl,
}
use kist_data_collector.Common.Int.{ℤ}
use kist_data_collector.RecordQueue
use kist_data_collector.Pipeline
use kist_data_collector.Pipeline.{Writer, Recorder}
use kist_data_collector.Pipeline.Accounting.{Counts}
use kist_data_collector.Pipeline.Serial.{Answers, write_batch, turn, serve, close}

module _ {W : Writer} (C : Counts W) where
  open C use {handled, handled-write, handled-flush, handled-close}

  -- Each record received is dropped, handled or still in the queue; without a writer thread the
  -- queue is empty and refuses.
  pub record IsSteady (r : Recorder W) : Type 0 where
    pub balance : u64 r.received ≡ u64 (r.dropped + handled r.out + length r.queue.queue)
    pub counted : u64 r.received ≡ r.received
    pub silent :
        r.joinable ≡ false
        → (length r.queue.queue ≡ 0) × ((r.queue.closed ≡ true) ⊎ (r.queue.capacity ≡ 0))

  write_batch-handled :
      (on_item : ℕ → W.Choice) (xs : List (W.Item × ℤ)) (o : W.Out)
      → u64 (handled (write_batch W on_item xs o)) ≡ u64 (handled o + length xs)
  unfolding write_batch
  write_batch-handled on_item [] o = omega arith
  write_batch-handled on_item (x ∷ xs) o = omega (
    arith,
    write_batch-handled (λ n. on_item (n + 1)) xs (W.write_item (on_item 0) x o),
    handled-write (on_item 0) x o,
  )

  turn-IsSteady :
      (d : Answers W) (xs : List (W.Item × ℤ)) (r : Recorder W)
      → r.queue.queue ≡ xs
      → IsSteady r
      → IsSteady (turn d xs r)
  turn-IsSteady d [] r e v = v
  turn-IsSteady d (x ∷ xs) r e v = record {
    balance = omega (
      arith,
      v.balance,
      ap length e,
      write_batch-handled d.on_item (x ∷ xs) r.out,
      handled-flush d.on_flush (write_batch W d.on_item (x ∷ xs) r.out),
    );
    counted = v.counted;
    silent = λ j. (refl, (v.silent j).1);
  }

  turn-empty :
      (d : Answers W) (xs : List (W.Item × ℤ)) (r : Recorder W)
      → r.queue.queue ≡ xs
      → length (turn d xs r).queue.queue ≡ 0
  turn-empty d [] r e = ap length e
  turn-empty d (x ∷ xs) r e = refl

  turn-keeps :
      (d : Answers W) (xs : List (W.Item × ℤ)) (r : Recorder W)
      → ((turn d xs r).queue.closed ≡ r.queue.closed) × ((turn d xs r).joinable ≡ r.joinable)
  turn-keeps d [] r = (refl, refl)
  turn-keeps d (x ∷ xs) r = (refl, refl)

  -- A turn of the writer keeps a recorder steady, and its thread.
  pub serve-IsSteady :
      (d : Answers W) (r : Recorder W)
      → IsSteady r
      → IsSteady (serve d r) × ((serve d r).joinable ≡ r.joinable)
  unfolding serve
  serve-IsSteady d r v = (turn-IsSteady d r.queue.queue r refl v, (turn-keeps d r.queue.queue r).1)

  pub push-joinable :
      (m : W.Item) (t : ℤ) (r : Recorder W) → (Pipeline.push m t r).joinable ≡ r.joinable
  unfolding Pipeline.push RecordQueue.push
  push-joinable m t r = ground arith

  pub push-IsSteady :
      (m : W.Item) (t : ℤ) (r : Recorder W) → IsSteady r → IsSteady (Pipeline.push m t r)
  unfolding Pipeline.push RecordQueue.push
  push-IsSteady m t r v =
      let n = length-append r.queue.queue ((m, t) ∷ []) in
      record {
        balance = ground (arith, v.balance, n);
        counted = ground (arith, v.counted);
        silent = λ j.
            let s = v.silent (sym (push-joinable m t r) ∙ j) in
            (ground (arith, s.0, s.1), ground (arith, s.0, s.1));
      }

  -- A recorder that was closed has no thread, and is steady.
  pub close-IsSteady :
      (d : Answers W) (r : Recorder W)
      → IsSteady r
      → IsSteady (close d r) × ((close d r).joinable ≡ false)
  unfolding close serve RecordQueue.close
  close-IsSteady d r v =
      if-holds (λ (s : Recorder W). IsSteady s × (s.joinable ≡ false)) r.joinable _ r
        (λ on.
          let q : Recorder W = record r { queue = record r.queue { closed = true } } in
          let w = turn-IsSteady d r.queue.queue q refl (record {
            balance = v.balance;
            counted = v.counted;
            silent = λ j. ground (arith, on, j);
          }) in
          (
            record {
              balance =
                  omega (arith, w.balance, handled-close d.on_close (turn d r.queue.queue q).out);
              counted = w.counted;
              silent =
                  λ _. (turn-empty d r.queue.queue q refl, inl (turn-keeps d r.queue.queue q).0);
            },
            refl,
          ))
        (λ off. (v, off))

  -- All that a recorder without a thread received is accounted for.
  pub IsSteady-settled :
      (r : Recorder W)
      → IsSteady r
      → r.joinable ≡ false
      → r.received ≡ u64 (r.dropped + handled r.out)
  IsSteady-settled r v j = omega (arith, v.balance, v.counted, (v.silent j).0)
