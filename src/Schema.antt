-- ===== src/Schema.antt =====
-- The CSV schemas (include/*_recorder/*_rows.hpp): how a row is printed.
pub mod Command
pub mod State
pub mod Frames
pub mod Cells
pub mod Other
use kist_data_collector.Common.{
  ℕ, zero, suc, ◌+◌, ◌-◌, ◌^◌, ◌≤◌, ◌<◌, ◌≡◌, refl, List, [], ◌∷◌, ◌++◌, length, take, arith, ap,
  length-append,
}
use kist_data_collector.Common.Text.{
  Text, commas, decimal, decimal_ℤ, length-decimal, commas-decimal, commas-append,
}
use kist_data_collector.Common.Int.{ℤ, pos, negsuc, pos_part, neg_part}

-- float, and what printf prints for it. The laws are those of `%.7g` and `%.6g` at a float: no
-- comma (the process never leaves the C locale), and at most a sign, seven digits, a point and an
-- exponent of two digits.
pub record Floats : Type 1 where
  pub Float : Type 0
  pub zero_float : Float
  pub g7 : Float → Text
  pub g6 : Float → Text
  pub commas-g7 : (x : Float) → commas (g7 x) ≡ 0
  pub commas-g6 : (x : Float) → commas (g6 x) ≡ 0
  pub length-g7 : (x : Float) → length (g7 x) ≤ 13
  pub length-g6 : (x : Float) → length (g6 x) ≤ 12

-- `snprintf(b, size, …)` keeps what fits in front of the closing zero byte.
unfoldable pub snprintf : ℕ → Text → Text
snprintf size t = take (size - 1) t

take_all : (n : ℕ) (t : Text) → length t ≤ n → take n t ≡ t
take_all zero [] h = refl
take_all zero (c ∷ t) h = absurd (omega arith)
take_all (suc n) [] h = refl
take_all (suc n) (c ∷ t) h = ap (◌∷◌ c) (take_all n t (omega arith))

-- Nothing is cut off a text that is shorter than the buffer.
pub snprintf-lt : (size : ℕ) (t : Text) → length t < size → snprintf size t ≡ t
unfolding snprintf
snprintf-lt size t h = take_all (size - 1) t (omega arith)

-- An int64_t.
abbrev pub IsInt64 : ℤ → Type 0
IsInt64 n = (pos_part n < 2 ^ 63) × (neg_part n ≤ 2 ^ 63)

pub length-decimal_ℤ : (n : ℤ) → IsInt64 n → length (decimal_ℤ n) ≤ 20
unfolding decimal_ℤ
length-decimal_ℤ (pos n) h = omega (arith, length-decimal 20 n (omega arith) (omega arith))
length-decimal_ℤ (negsuc n) h = omega (arith, length-decimal 19 (suc n) (omega arith) (omega arith))

pub length-decimal-u8 : (n : ℕ) → n < 2 ^ 8 → length (decimal n) ≤ 3
length-decimal-u8 n h = length-decimal 3 n (omega arith) (omega arith)

pub length-decimal-u32 : (n : ℕ) → n < 2 ^ 32 → length (decimal n) ≤ 10
length-decimal-u32 n h = length-decimal 10 n (omega arith) (omega arith)

pub length-decimal-u64 : (n : ℕ) → n < 2 ^ 64 → length (decimal n) ≤ 20
length-decimal-u64 n h = length-decimal 20 n (omega arith) (omega arith)
