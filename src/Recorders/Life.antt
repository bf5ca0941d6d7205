-- ===== src/Recorders/Life.antt =====
-- The life of a recorder of src/system/: its calls, and the callback and the writer in between.
use kist_data_collector.Common.{
  ℕ, ◌≡◌, refl, sym, ap, ◌∙◌, subst, Bool, true, false, not, Option, some, arith, if-holds, inr,
  some_injective,
}
use kist_data_collector.Common.Text.{Text}
use kist_data_collector.Common.Int.{ℤ}
use kist_data_collector.RecordQueue
use kist_data_collector.Stream.{Fate, open_stream}
use kist_data_collector.Pipeline.{Recorder}
use kist_data_collector.Pipeline.Serial
use kist_data_collector.Pipeline.Serial.Steady.{
  IsSteady, serve-IsSteady, push-joinable, push-IsSteady, close-IsSteady, IsSteady-settled,
}
use kist_data_collector.Outcome.{Holds, Holds-bind, Holds-get}
use kist_data_collector.Row.{RecordType, row_writer, open_rows, row_stats}
use kist_data_collector.Row.Losses.{row_counts}
use kist_data_collector.Collector.Summary.{IsSettled}
use kist_data_collector.Recorders.{
  SdkRecorder, Disk, Dds, no_subscriber, no_channel, connected, fresh_sdk, answers, connect,
  opened_sdk, start_sdk, stop_sdk, deliver,
}

-- A recorder after any calls, messages and turns of its writer.
pub data Reach (T : RecordType) : SdkRecorder T → Type 0 where
  made : Reach T (fresh_sdk T)
  starts :
      (d : Disk) (dds : Dds) (header : Text) (capacity : ℕ) (label : Text) {r r' : SdkRecorder T}
      {ok : Bool}
      → start_sdk T d dds header capacity (record r { label = label }) ≡ some (r', ok)
      → Reach T r
      → Reach T r'
  delivers :
      (m : T.Record) (recv_ns : ℤ) {r : SdkRecorder T} → Reach T r → Reach T (deliver T m recv_ns r)
  serves :
      (d : Disk) {r : SdkRecorder T}
      → r.rec.joinable ≡ true
      → Reach T r
      → Reach T (record r { rec = Serial.serve (answers T d) r.rec })
  stops : (d : Disk) {r : SdkRecorder T} → Reach T r → Reach T (stop_sdk T d r)

module _ (T : RecordType) where
  -- What holds between two calls: also, `running_` is true exactly with a writer thread.
  record SdkInv (r : SdkRecorder T) : Type 0 where
    rec : IsSteady (row_counts T) r.rec
    running : r.running ≡ r.rec.joinable

  open_rows-Holds :
      (ok : Bool) (fate : Fate) (header : Text) (capacity : ℕ) (r : Recorder (row_writer T))
      → IsSteady (row_counts T) r
      → r.joinable ≡ false
      → Holds
          (λ p. IsSteady (row_counts T) p.0 × (p.0.joinable ≡ p.1))
          (open_rows T ok fate header capacity r)
  unfolding Holds open_rows RecordQueue.open_queue
  open_rows-Holds ok fate header capacity r v j =
      if-holds Q (not (open_stream ok r.out.file).is_open) _ _
        (λ _. (record { balance = v.balance; counted = v.counted; silent = v.silent }, j))
        λ _.
          if-holds Q r.joinable _ _ (λ on. ground (arith, on, j))
            (λ _. (
              record {
                balance = omega (arith, v.balance, (v.silent j).0);
                counted = v.counted;
                silent = λ k. ground (arith, k);
              },
              refl,
            ))
    where
      Q : Option (Recorder (row_writer T) × Bool) → Type 0
      Q = Holds (λ (p : Recorder (row_writer T) × Bool).
          IsSteady (row_counts T) p.0 × (p.0.joinable ≡ p.1))

  connect-SdkInv :
      (d : Disk) (dds : Dds) (r : SdkRecorder T)
      → IsSteady (row_counts T) r.rec
      → r.running ≡ false
      → r.rec.joinable ≡ true
      → SdkInv (connect T d dds r).0
  connect-SdkInv d no_subscriber r v off j =
      let (w, k) = close-IsSteady (row_counts T) (answers T d) r.rec v in
      record { rec = w; running = off ∙ sym k }
  connect-SdkInv d no_channel r v off j =
      let (w, k) = close-IsSteady (row_counts T) (answers T d) r.rec v in
      record { rec = w; running = off ∙ sym k }
  connect-SdkInv d connected r v off j = record { rec = v; running = sym j }

  opened_sdk-SdkInv :
      (d : Disk) (dds : Dds) (r : SdkRecorder T) (p : Recorder (row_writer T)) (ok : Bool)
      → IsSteady (row_counts T) p
      → r.running ≡ false
      → p.joinable ≡ ok
      → SdkInv (opened_sdk T d dds r (p, ok)).0
  opened_sdk-SdkInv d dds r p true v off j = connect-SdkInv d dds (record r { rec = p }) v off j
  opened_sdk-SdkInv d dds r p false v off j = record { rec = v; running = off ∙ sym j }

  start_sdk-Holds :
      (d : Disk) (dds : Dds) (header : Text) (capacity : ℕ) (r : SdkRecorder T)
      → SdkInv r
      → Holds (λ p. SdkInv p.0) (start_sdk T d dds header capacity r)
  unfolding Holds start_sdk
  start_sdk-Holds d dds header capacity r v =
      if-holds (Holds (λ (p : SdkRecorder T × Bool). SdkInv p.0)) r.running _ _ (λ _. v)
        (λ off.
          Holds-bind
            (λ (p : Recorder (row_writer T) × Bool).
              IsSteady (row_counts T) p.0 × (p.0.joinable ≡ p.1))
            (λ (p : SdkRecorder T × Bool). SdkInv p.0) _ _
            (open_rows-Holds d.opens d.on_header header capacity r.rec v.rec (sym v.running ∙ off))
            (λ p h. opened_sdk-SdkInv d dds r p.0 p.1 h.0 off h.1))

  Reach-SdkInv : {r : SdkRecorder T} → Reach T r → SdkInv r
  unfolding deliver stop_sdk
  Reach-SdkInv made = record {
    rec = record { balance = refl; counted = refl; silent = λ _. (refl, inr refl) };
    running = refl;
  }
  Reach-SdkInv (starts d dds header capacity label {r} e l) =
      let v = Reach-SdkInv l in
      let (p, same, w) =
        Holds-get (λ (p : SdkRecorder T × Bool). SdkInv p.0) _
          (start_sdk-Holds d dds header capacity (record r { label = label })
            (record { rec = v.rec; running = v.running })) in
      subst SdkInv (ap (λ (p : SdkRecorder T × Bool). p.0) (some_injective (sym same ∙ e))) w
  Reach-SdkInv (delivers m t {r} l) =
      let v = Reach-SdkInv l in
      record {
        rec = push-IsSteady (row_counts T) m t r.rec v.rec;
        running = v.running ∙ sym (push-joinable (row_counts T) m t r.rec);
      }
  Reach-SdkInv (serves d {r} j l) =
      let v = Reach-SdkInv l in
      let (w, k) = serve-IsSteady (row_counts T) (answers T d) r.rec v.rec in
      record { rec = w; running = v.running ∙ sym k }
  Reach-SdkInv (stops d {r} l) =
      let v = Reach-SdkInv l in
      let (w, j) = close-IsSteady (row_counts T) (answers T d) r.rec v.rec in
      record { rec = w; running = sym j }

  -- However often a recorder was started and stopped, whatever failed, and whatever arrived in
  -- between, the next `start` returns: it never assigns to a thread that was not joined.
  pub Reach-start :
      {r : SdkRecorder T} (d : Disk) (dds : Dds) (header : Text) (capacity : ℕ)
      → Reach T r
      → (p : SdkRecorder T × Bool) × (start_sdk T d dds header capacity r ≡ some p)
  Reach-start d dds header capacity l =
      let (p, same, _) =
        Holds-get (λ (p : SdkRecorder T × Bool). SdkInv p.0) _
          (start_sdk-Holds d dds header capacity _ (Reach-SdkInv l)) in
      (p, same)

  -- However it got where it is, a recorder that is stopped has accounted for every message that it
  -- received since it was made, modulo 2^64: dropped, written, or a write error.
  pub Reach-stop-IsSettled :
      {r : SdkRecorder T} (d : Disk) → Reach T r → IsSettled (row_stats T (stop_sdk T d r).rec)
  unfolding row_stats stop_sdk
  Reach-stop-IsSettled {r} d l =
      let (w, j) = close-IsSteady (row_counts T) (answers T d) r.rec (Reach-SdkInv l).rec in
      IsSteady-settled (row_counts T) _ w j
