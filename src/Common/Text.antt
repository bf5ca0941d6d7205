-- ===== src/Common/Text.antt =====
-- Text as the list of its bytes, and the decimal numbers that `<<` and `snprintf` print.
use Prim.Native.Nat.{ℕ, zero, suc, ◌+◌, ◌-◌, ◌/◌, ◌%◌, ◌^◌, ◌≤◌, ◌<◌}
use native.Mathlib.Nat.{pow-suc}
use Prim.Native.Char.{code}
use Prim.Native.String.{String}
use mathlib.Core.Path.{◌≡◌, refl}
use mathlib.Core.List.{List, [], ◌∷◌, ◌++◌}
use native.Mathlib.Omega.{arith}
use kist_data_collector.Common.Tests.{◌==◌, if◌then◌else◌}
use kist_data_collector.Common.Lists.{length}
use kist_data_collector.Common.Int.{ℤ, pos, negsuc}

abbrev pub Text : Type 0
Text = List ℕ

-- The code points of a literal: its bytes, since the program's literals below are ASCII.
abbrev pub text : String → Text
text String.[] = []
text (String.◌∷◌ c s) = code c ∷ text s

abbrev pub comma : Text
comma = b',' ∷ []

abbrev pub newline : Text
newline = 10 ∷ []

-- The digits of `n` in front of `out`. The first argument is fuel: `n` rounds are enough, because
-- each divides by ten.
unfoldable pub digits : ℕ → ℕ → Text → Text
digits zero n out = out
digits (suc fuel) n out =
    let rest = digits fuel (n / 10) ((b'0' + n % 10) ∷ out) in if n == 0 then out else rest

-- `%llu`, `%u` and `<<` of an unsigned number.
unfoldable pub decimal : ℕ → Text
unfolding digits
decimal n = if n == 0 then b'0' ∷ [] else digits n n []

-- `%lld`, `%d` and `<<` of a signed number.
unfoldable pub decimal_ℤ : ℤ → Text
unfolding decimal
decimal_ℤ (pos n) = decimal n
decimal_ℤ (negsuc n) = b'-' ∷ decimal (suc n)

abbrev pub zeros : ℕ → Text
zeros zero = []
zeros (suc n) = b'0' ∷ zeros n

-- `%0<width>llu`.
unfoldable pub padded : ℕ → ℕ → Text
unfolding decimal
padded width n = zeros (width - length (decimal n)) ++ decimal n

-- The commas of a text: a CSV row has one field more.
abbrev pub commas : Text → ℕ
commas [] = 0
commas (c ∷ s) = if c == b',' then suc (commas s) else commas s

pub commas-append : (s t : Text) → commas (s ++ t) ≡ commas s + commas t
commas-append [] t = omega arith
commas-append (c ∷ s) t = ground (arith, commas-append s t)

commas-digits : (fuel n : ℕ) (out : Text) → commas (digits fuel n out) ≡ commas out
unfolding digits
commas-digits zero n out = refl
commas-digits (suc fuel) n out = ground (arith, commas-digits fuel (n / 10) ((b'0' + n % 10) ∷ out))

-- A printed number holds no comma.
pub commas-decimal : (n : ℕ) → commas (decimal n) ≡ 0
unfolding decimal
commas-decimal n = ground (arith, commas-digits n n [])

pub commas-decimal_ℤ : (n : ℤ) → commas (decimal_ℤ n) ≡ 0
unfolding decimal_ℤ
commas-decimal_ℤ (pos n) = commas-decimal n
commas-decimal_ℤ (negsuc n) = commas-decimal (suc n)

commas-zeros : (n : ℕ) → commas (zeros n) ≡ 0
commas-zeros zero = refl
commas-zeros (suc n) = commas-zeros n

pub commas-padded : (width n : ℕ) → commas (padded width n) ≡ 0
unfolding padded
commas-padded width n = omega (
  arith,
  commas-append (zeros (width - length (decimal n))) (decimal n),
  commas-zeros (width - length (decimal n)),
  commas-decimal n,
)

length-digits :
    (k fuel n : ℕ) (out : Text) → n < 10 ^ k → length (digits fuel n out) ≤ k + length out
unfolding digits
length-digits k zero n out h = omega arith
length-digits zero (suc fuel) n out h = ground arith
length-digits (suc k) (suc fuel) n out h =
    ground (arith, pow-suc 10 k, length-digits k fuel (n / 10) ((b'0' + n % 10) ∷ out))

-- A number below 10^k prints in at most k digits.
pub length-decimal : (k n : ℕ) → n < 10 ^ k → 0 < k → length (decimal n) ≤ k
unfolding decimal
length-decimal k n h pos_k = ground (arith, length-digits k n n [])

decimal_max : decimal 18446744073709551615 ≡ text "18446744073709551615"
unfolding decimal
decimal_max = refl

padded_seq : padded 10 42 ≡ text "0000000042"
unfolding padded
padded_seq = refl
