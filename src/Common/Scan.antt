-- ===== src/Common/Scan.antt =====
-- What std::getline and the conversions `%llu`, `%lld` and `%d` of sscanf read off a text, and that
-- they read back what `<<` and `snprintf` print.
pub mod Commas
use Prim.Native.Nat.{ℕ, zero, suc, ◌+◌, ◌-◌, ◌*◌, ◌/◌, ◌%◌, ◌≤◌}
use mathlib.Core.Path.{◌≡◌, refl, ap, ◌∙◌}
use mathlib.Core.Bool.{Bool, true, false, not, ◌&&◌, ◌||◌}
use mathlib.Core.Logic.{inl, inr}
use mathlib.Core.Option.{Option, none, some}
use mathlib.Core.List.{List, [], ◌∷◌, ◌++◌, append_assoc}
use native.Mathlib.Omega.{arith}
use kist_data_collector.Common.Tests.{◌==◌, leb, if◌then◌else◌, if-holds, Bool-cases}
use kist_data_collector.Common.Lists.{length}
use kist_data_collector.Common.Words.{u64, u64_mod}
use kist_data_collector.Common.Int.{ℤ, pos, negsuc}
use kist_data_collector.Common.Text.{Text, text, decimal, decimal_ℤ, digits, padded, zeros}
use kist_data_collector.Common.Lacks.{Lacks, is_digit}
use kist_data_collector.Outcome.{◌>>=◌}

abbrev is_space : ℕ → Bool
is_space c = c == 32 || (leb 9 c && leb c 13)

-- A byte in front of the lines that follow it.
abbrev on_line : ℕ → List Text → List Text
on_line c [] = (c ∷ []) ∷ []
on_line c (l ∷ ls) = (c ∷ l) ∷ ls

-- The lines that std::getline gives one after the other: without the ends of the lines, and with
-- the last line if it is not empty, whether or not it is ended.
unfoldable pub lines : Text → List Text
lines [] = []
lines (c ∷ s) = let rest = lines s in if c == 10 then [] ∷ rest else on_line c rest

abbrev pub skip_space : Text → Text
skip_space [] = []
skip_space (c ∷ s) = let rest = skip_space s in if is_space c then rest else c ∷ s

-- The value of the digits in front, behind `n`, and what stands after them.
unfoldable pub scan_digits : ℕ → Text → ℕ × Text
scan_digits n [] = (n, [])
scan_digits n (c ∷ s) =
    let rest = scan_digits (n * 10 + (c - b'0')) s in if is_digit c then rest else (n, c ∷ s)

-- One digit at least.
unfoldable pub natural : Text → Option (ℕ × Text)
natural [] = none
natural (c ∷ s) = if is_digit c then some (scan_digits 0 (c ∷ s)) else none

-- Whether there is a minus sign in front, and what stands after the sign.
unfoldable pub sign : Text → Bool × Text
sign [] = (false, [])
sign (c ∷ s) = if c == b'-' then (true, s) else if c == b'+' then (false, s) else (false, c ∷ s)

-- `%llu`, which takes a negative number modulo 2^64. C leaves open what a number out of range
-- becomes; it is kept whole here.
unfoldable pub scan_unsigned : Text → Option (ℕ × Text)
unfolding natural sign scan_digits
scan_unsigned s =
    let signed = sign (skip_space s) in
    natural signed.1 >>= λ (p : ℕ × Text).
    some ((if signed.0 then u64 (u64_mod - p.0) else p.0), p.1)

abbrev negate : ℕ → ℤ
negate zero = pos 0
negate (suc n) = negsuc n

-- `%lld` and `%d`, with numbers out of range kept whole.
unfoldable pub scan_signed : Text → Option (ℤ × Text)
unfolding natural sign scan_digits
scan_signed s =
    let signed = sign (skip_space s) in
    natural signed.1 >>= λ (p : ℕ × Text). some ((if signed.0 then negate p.0 else pos p.0), p.1)

-- No digit in front: a number ends here.
abbrev pub Ends : Text → Type 0
Ends [] = Unit {0}
Ends (c ∷ s) = is_digit c ≡ false

-- A digit in front.
abbrev Starts : Text → Type 0
Starts [] = ⊥
Starts (c ∷ s) = is_digit c ≡ true

-- A line that is ended is read as it was written.
pub lines-line : (l rest : Text) → Lacks 10 l → lines (l ++ 10 ∷ rest) ≡ l ∷ lines rest
unfolding lines
lines-line [] rest h = refl
lines-line (c ∷ l) rest (h, hs) = rw (h) (ap (on_line c) (lines-line l rest hs))

scan_digits-Ends : (n : ℕ) (rest : Text) → Ends rest → scan_digits n rest ≡ (n, rest)
unfolding scan_digits
scan_digits-Ends n [] h = refl
scan_digits-Ends n (c ∷ rest) h = rw (h) refl

scan_last : (n : ℕ) (out : Text) → scan_digits (n / 10) ((b'0' + n % 10) ∷ out) ≡ scan_digits n out
unfolding scan_digits
scan_last n out = ground arith

-- The digits printed are read back, as long as the printer's fuel was enough.
scan_digits-digits :
    (fuel n : ℕ) (out rest : Text)
    → n ≤ fuel
    → scan_digits 0 (digits fuel n out ++ rest) ≡ scan_digits n (out ++ rest)
unfolding digits
scan_digits-digits zero n out rest h = ground arith
scan_digits-digits (suc fuel) n out rest h = ground (
  arith,
  scan_digits-digits fuel (n / 10) ((b'0' + n % 10) ∷ out) rest,
  scan_last n (out ++ rest),
)

digits-Starts : (fuel n : ℕ) (out : Text) → Starts out → Starts (digits fuel n out)
unfolding digits
digits-Starts zero n out h = h
digits-Starts (suc fuel) n out h =
    ground (arith, digits-Starts fuel (n / 10) ((b'0' + n % 10) ∷ out))

decimal-suc : (n : ℕ) → decimal (suc n) ≡ digits (suc n) (suc n) []
unfolding decimal
decimal-suc n = ground arith

scan_digits-decimal :
    (n : ℕ) (rest : Text) → Ends rest → scan_digits 0 (decimal n ++ rest) ≡ (n, rest)
unfolding decimal scan_digits
scan_digits-decimal zero rest h = scan_digits-Ends 0 rest h
scan_digits-decimal (suc n) rest h =
    rw (decimal-suc n)
      (scan_digits-digits (suc n) (suc n) [] rest (omega arith) ∙ scan_digits-Ends (suc n) rest h)

decimal-Starts : (n : ℕ) → Starts (decimal n)
unfolding decimal digits
decimal-Starts zero = refl
decimal-Starts (suc n) = ground (arith, digits-Starts n (suc n / 10) ((b'0' + suc n % 10) ∷ []))

-- On a digit nothing is skipped, and no sign is read.
unsigned-Starts :
    (s rest : Text)
    → Starts s
    → (skip_space (s ++ rest) ≡ s ++ rest)
      × (sign (s ++ rest) ≡ (false, s ++ rest))
      × (natural (s ++ rest) ≡ some (scan_digits 0 (s ++ rest)))
unfolding sign natural
unsigned-Starts [] rest h = elim h [ ]
unsigned-Starts (c ∷ s) rest h = (ground (arith, h), ground (arith, h), rw (h) refl)

-- A printed number is read back, and reading stops where it ends.
pub scan_unsigned-decimal :
    (n : ℕ) (rest : Text) → Ends rest → scan_unsigned (decimal n ++ rest) ≡ some (n, rest)
unfolding scan_unsigned
scan_unsigned-decimal n rest h =
    let (skipped, unsigned, number) = unsigned-Starts (decimal n) rest (decimal-Starts n) in
    rw (skipped, unsigned, number, scan_digits-decimal n rest h) refl

zeros-Starts : (n : ℕ) (s : Text) → Starts s → Starts (zeros n ++ s)
zeros-Starts zero s h = h
zeros-Starts (suc n) s h = refl

scan_digits-zeros : (n : ℕ) (s : Text) → scan_digits 0 (zeros n ++ s) ≡ scan_digits 0 s
unfolding scan_digits
scan_digits-zeros zero s = refl
scan_digits-zeros (suc n) s = scan_digits-zeros n s

-- Leading zeros change nothing.
pub scan_unsigned-padded :
    (width n : ℕ) (rest : Text)
    → Ends rest
    → scan_unsigned (padded width n ++ rest) ≡ some (n, rest)
unfolding scan_unsigned padded
scan_unsigned-padded width n rest h =
    let k = width - length (decimal n) in
    let (skipped, unsigned, number) =
      unsigned-Starts (zeros k ++ decimal n) rest (zeros-Starts k (decimal n) (decimal-Starts n)) in
    rw (skipped, unsigned, number, append_assoc (zeros k) (decimal n) rest)
      (rw (scan_digits-zeros k (decimal n ++ rest), scan_digits-decimal n rest h) refl)

pub scan_signed-decimal_ℤ :
    (n : ℤ) (rest : Text) → Ends rest → scan_signed (decimal_ℤ n ++ rest) ≡ some (n, rest)
unfolding scan_signed decimal_ℤ sign
scan_signed-decimal_ℤ (pos n) rest h =
    let (skipped, unsigned, number) = unsigned-Starts (decimal n) rest (decimal-Starts n) in
    rw (skipped, unsigned, number, scan_digits-decimal n rest h) refl
scan_signed-decimal_ℤ (negsuc n) rest h =
    let (_, _, number) = unsigned-Starts (decimal (suc n)) rest (decimal-Starts (suc n)) in
    rw (number, scan_digits-decimal (suc n) rest h) refl

two_lines : lines (text "ab" ++ 10 ∷ 10 ∷ text "c") ≡ text "ab" ∷ [] ∷ text "c" ∷ []
unfolding lines
two_lines = refl

negative : scan_signed (text " -042,7") ≡ some (negsuc 41, text ",7")
unfolding scan_signed natural sign scan_digits
negative = refl

wrapped : scan_unsigned (text "-1x") ≡ some (18446744073709551615, text "x")
unfolding scan_unsigned natural sign scan_digits
wrapped = refl
