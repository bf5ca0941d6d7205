-- ===== src/Common/Scan/Commas.antt =====
-- A conversion of sscanf leaves an end of what it was given: no comma more.
use kist_data_collector.Common.Tests.{Option-cases}
use Prim.Native.Nat.{ℕ, ◌≤◌, ◌+◌, ◌-◌, ◌*◌}
use mathlib.Core.Path.{◌≡◌}
use mathlib.Core.Option.{Option, some}
use mathlib.Core.Logic.{inl, inr}
use mathlib.Core.List.{[], ◌∷◌}
use native.Mathlib.Omega.{arith}
use kist_data_collector.Common.Text.{Text, commas}
use kist_data_collector.Common.Scan.{
  skip_space, sign, natural, scan_digits, scan_unsigned, scan_signed,
}

abbrev pub Eats {ℓ} : {A : Type ℓ} → (Text → Option (A × Text)) → Type ℓ
Eats {A = A} scan =
    (s : Text) (a : A) (rest : Text) → scan s ≡ some (a, rest) → commas rest ≤ commas s

skip_space-commas : (s : Text) → commas (skip_space s) ≤ commas s
skip_space-commas [] = omega arith
skip_space-commas (c ∷ s) = ground (arith, skip_space-commas s)

sign-commas : (s : Text) → commas (sign s).1 ≤ commas s
unfolding sign
sign-commas [] = omega arith
sign-commas (c ∷ s) = ground arith

scan_digits-commas : (n : ℕ) (s : Text) → commas (scan_digits n s).1 ≤ commas s
unfolding scan_digits
scan_digits-commas n [] = omega arith
scan_digits-commas n (c ∷ s) = ground (arith, scan_digits-commas (n * 10 + (c - b'0')) s)

natural-commas : Eats natural
unfolding natural
natural-commas [] n rest e = ground arith
natural-commas (c ∷ s) n rest e = ground (arith, scan_digits-commas 0 (c ∷ s))

pub scan_unsigned-Eats : Eats scan_unsigned
unfolding scan_unsigned
scan_unsigned-Eats s n rest e = elim (Option-cases (natural (sign (skip_space s)).1)) [
  | inl h ↦ ground (arith, h, e)
  | inr (p, h) ↦ ground (
    arith,
    h,
    e,
    natural-commas (sign (skip_space s)).1 p.0 p.1 h,
    sign-commas (skip_space s),
    skip_space-commas s,
  )
]

pub scan_signed-Eats : Eats scan_signed
unfolding scan_signed
scan_signed-Eats s n rest e = elim (Option-cases (natural (sign (skip_space s)).1)) [
  | inl h ↦ ground (arith, h, e)
  | inr (p, h) ↦ ground (
    arith,
    h,
    e,
    natural-commas (sign (skip_space s)).1 p.0 p.1 h,
    sign-commas (skip_space s),
    skip_space-commas s,
  )
]
