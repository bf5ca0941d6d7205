-- ===== src/Common/Lacks.antt =====
-- Texts in which a byte does not occur: the printed numbers hold nothing but digits and a sign.
use Prim.Native.Nat.{ℕ, zero, suc, ◌+◌, ◌/◌, ◌%◌}
use mathlib.Core.Path.{◌≡◌, refl}
use mathlib.Core.Logic.{inl, inr}
use mathlib.Core.Bool.{Bool, true, false, not, ◌&&◌}
use mathlib.Core.List.{[], ◌∷◌, ◌++◌}
use native.Mathlib.Omega.{arith}
use kist_data_collector.Common.Tests.{◌==◌, leb, if-holds, Bool-cases}
use kist_data_collector.Common.Int.{ℤ, pos, negsuc}
use kist_data_collector.Common.Text.{Text, decimal, decimal_ℤ, digits}

abbrev pub is_digit : ℕ → Bool
is_digit c = leb b'0' c && leb c b'9'

-- The byte `c` does not occur.
abbrev pub Lacks : ℕ → Text → Type 0
Lacks c [] = Unit {0}
Lacks c (d ∷ s) = ((d == c) ≡ false) × Lacks c s

-- The test, for a given text.
abbrev pub lacks : ℕ → Text → Bool
lacks c [] = true
lacks c (d ∷ s) = not (d == c) && lacks c s

pub lacks-Lacks : (c : ℕ) (s : Text) → lacks c s ≡ true → Lacks c s
lacks-Lacks c [] h = tt
lacks-Lacks c (d ∷ s) h = elim (Bool-cases (d == c)) [
  | inl e ↦ ground (arith, e, h)
  | inr e ↦ (e, lacks-Lacks c s (ground (arith, e, h)))
]

pub Lacks-append : (c : ℕ) (s t : Text) → Lacks c s → Lacks c t → Lacks c (s ++ t)
Lacks-append c [] t h k = k
Lacks-append c (d ∷ s) t (h, hs) k = (h, Lacks-append c s t hs k)

Lacks-digits :
    (c fuel n : ℕ) (out : Text) → is_digit c ≡ false → Lacks c out → Lacks c (digits fuel n out)
unfolding digits
Lacks-digits c zero n out h k = k
Lacks-digits c (suc fuel) n out h k =
    if-holds (Lacks c) (n == 0) _ _ (λ _. k)
      λ _. Lacks-digits c fuel (n / 10) ((b'0' + n % 10) ∷ out) h (ground (arith, h), k)

-- A printed number is made of digits.
pub Lacks-decimal : (c n : ℕ) → is_digit c ≡ false → Lacks c (decimal n)
unfolding decimal
Lacks-decimal c n h =
    if-holds (Lacks c) (n == 0) _ _ (λ _. (ground (arith, h), tt)) λ _. Lacks-digits c n n [] h tt

pub Lacks-decimal_ℤ : (n : ℤ) → Lacks 10 (decimal_ℤ n)
unfolding decimal_ℤ
Lacks-decimal_ℤ (pos n) = Lacks-decimal 10 n refl
Lacks-decimal_ℤ (negsuc n) = (refl, Lacks-decimal 10 (suc n) refl)
