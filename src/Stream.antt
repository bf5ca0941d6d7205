-- ===== src/Stream.antt =====
-- std::ofstream as include/common/blob_recorder.hpp and row_recorder.hpp use it, and the counters
-- of include/common/stream_stats.hpp. What the file system does with a write is the environment's
-- choice, a `Fate` for each call.
pub mod File
use kist_data_collector.Common.{
  ℕ, ◌≡◌, List, [], ◌++◌, append-nil, append_assoc, Bool, true, false, ◌&&◌, take, if◌then◌else◌,
  arith,
}

-- `disk` is what reached the file, `buffer` what the stream still holds.
pub record OStream : Type 0 where
  pub disk : List ℕ
  pub buffer : List ℕ
  pub good : Bool
  pub is_open : Bool

-- A write or flush is buffered, or everything buffered goes to the disk, or the file system refuses
-- after taking that many bytes.
pub data Fate : Type 0 where
  keep : Fate
  spill : Fate
  refuse : ℕ → Fate

-- A stream that was never opened.
abbrev pub unopened : OStream
unopened = record { disk = []; buffer = []; good = true; is_open = false }

-- `open(path, trunc)`: with `true` it succeeds and empties the file, otherwise it sets failbit. A
-- stream that is open stays so, and turns bad.
abbrev open_closed : Bool → OStream → OStream
open_closed true s = record { disk = []; buffer = []; good = true; is_open = true }
open_closed false s = record s { good = false }

abbrev pub open_stream : Bool → OStream → OStream
open_stream ok s = if s.is_open then record s { good = false } else open_closed ok s

settle : Fate → List ℕ → OStream → OStream
settle keep bytes s = record s { buffer = s.buffer ++ bytes }
settle spill bytes s = record s { disk = s.disk ++ s.buffer ++ bytes; buffer = [] }
settle (refuse n) bytes s = record s {
  disk = s.disk ++ take n (s.buffer ++ bytes);
  buffer = [];
  good = false;
}

-- A stream that is not good ignores what is written to it; one that is not open turns bad.
unfoldable pub write : Fate → List ℕ → OStream → OStream
unfolding settle
write fate bytes s = if s.good && s.is_open then settle fate bytes s else record s { good = false }

-- `keep` would leave the buffer as it is, so a flush reads it as success too.
sync : Fate → OStream → OStream
sync keep s = record s { disk = s.disk ++ s.buffer; buffer = [] }
sync spill s = record s { disk = s.disk ++ s.buffer; buffer = [] }
sync (refuse n) s = record s { disk = s.disk ++ take n s.buffer; buffer = []; good = false }

unfoldable pub flush : Fate → OStream → OStream
unfolding sync
flush fate s = if s.good then sync fate s else s

-- `if (f.is_open()) f.close();`
unfoldable pub close_stream : Fate → OStream → OStream
unfolding flush
close_stream fate s = if s.is_open then record (flush fate s) { is_open = false } else s

-- Everything that the stream took and did not lose.
abbrev pub contents : OStream → List ℕ
contents s = s.disk ++ s.buffer

-- A write that leaves the stream good has appended its bytes.
pub contents-write :
    (fate : Fate) (bytes : List ℕ) (s : OStream)
    → (write fate bytes s).good ≡ true
    → contents (write fate bytes s) ≡ contents s ++ bytes
unfolding write
contents-write keep bytes s h = ground (arith, append_assoc s.disk s.buffer bytes)
contents-write spill bytes s h =
    ground (arith, append_assoc s.disk s.buffer bytes, append-nil (s.disk ++ s.buffer ++ bytes))
contents-write (refuse n) bytes s h = ground arith

-- Nothing makes a stream good again.
pub write-good :
    (fate : Fate) (bytes : List ℕ) (s : OStream) → (write fate bytes s).good ≡ true → s.good ≡ true
unfolding write
write-good fate bytes s h = ground arith

pub flush-good : (fate : Fate) (s : OStream) → (flush fate s).good ≡ true → s.good ≡ true
unfolding flush
flush-good fate s h = ground arith

-- A flush that leaves the stream good changes no contents, and leaves nothing buffered.
pub contents-flush :
    (fate : Fate) (s : OStream)
    → (flush fate s).good ≡ true
    → (contents (flush fate s) ≡ contents s)
      × ((flush fate s).disk ≡ contents s)
      × ((flush fate s).buffer ≡ [])
unfolding flush
contents-flush keep s h = ground (arith, append-nil (s.disk ++ s.buffer))
contents-flush spill s h = ground (arith, append-nil (s.disk ++ s.buffer))
contents-flush (refuse n) s h = ground arith

-- A stream that was closed while good has nothing left in its buffer.
abbrev pub IsFlushed : OStream → Type 0
IsFlushed s = s.is_open ≡ false → s.good ≡ true → s.buffer ≡ []

pub write-IsFlushed :
    (fate : Fate) (bytes : List ℕ) (s : OStream) → IsFlushed s → IsFlushed (write fate bytes s)
unfolding write
write-IsFlushed keep bytes s v = λ h g. ground arith
write-IsFlushed spill bytes s v = λ h g. ground arith
write-IsFlushed (refuse n) bytes s v = λ h g. ground arith

pub flush-IsFlushed : (fate : Fate) (s : OStream) → IsFlushed s → IsFlushed (flush fate s)
unfolding flush
flush-IsFlushed keep s v = λ h g. ground arith
flush-IsFlushed spill s v = λ h g. ground arith
flush-IsFlushed (refuse n) s v = λ h g. ground arith

pub close_stream-IsFlushed :
    (fate : Fate) (s : OStream) → IsFlushed s → IsFlushed (close_stream fate s)
unfolding close_stream
close_stream-IsFlushed keep s v = λ h g. ground arith
close_stream-IsFlushed spill s v = λ h g. ground arith
close_stream-IsFlushed (refuse n) s v = λ h g. ground arith

-- A close that leaves the stream good loses nothing, and puts everything on the disk.
pub contents-close_stream :
    (fate : Fate) (s : OStream)
    → IsFlushed s
    → (close_stream fate s).good ≡ true
    → (s.good ≡ true)
      × (contents (close_stream fate s) ≡ contents s)
      × ((close_stream fate s).disk ≡ contents s)
unfolding close_stream
contents-close_stream keep s v h =
    ground (arith, append-nil (s.disk ++ s.buffer), append-nil s.disk)
contents-close_stream spill s v h =
    ground (arith, append-nil (s.disk ++ s.buffer), append-nil s.disk)
contents-close_stream (refuse n) s v h = ground (arith, append-nil s.disk)

pub record StreamStats : Type 0 where
  pub received : ℕ
  pub written : ℕ
  pub dropped : ℕ
  pub write_errors : ℕ
  pub wire_gaps : ℕ
  pub bytes : ℕ
