-- ===== src/Base/Decimal.antt =====
-- fmt.Sscanf with "%d" reads back what "%d" prints.
use Prim.Native.Nat.{ℕ, zero, suc, ◌+◌, ◌-◌, ◌*◌, ◌/◌, ◌%◌, ◌^◌, ◌≤◌, ◌<◌}
use mathlib.Core.Path.{◌≡◌, refl, ap, ◌∙◌}
use mathlib.Core.Logic.{◌≢◌, inl, inr}
use mathlib.Core.Bool.{true, false}
use mathlib.Core.Option.{some}
use mathlib.Core.List.{[], ◌∷◌}
use native.Mathlib.Omega.{arith}
use earthion_blockchain_dev.Base.Tests.{ltb, ◌==◌, Bool-cases}
use earthion_blockchain_dev.Base.Lists.{All}
use earthion_blockchain_dev.Base.ByteStrings.{Bytes}
use earthion_blockchain_dev.Base.Format.{digits, decimal, value, value-decimal}
use earthion_blockchain_dev.Base.Scan.{
  is_space, skip_space, is_digit, scan_digits, scan_number, scan_uint,
}

-- A decimal digit.
abbrev pub IsDigit : ℕ → Type 0
IsDigit c = (b'0' ≤ c) × (c ≤ b'9')

digits-IsDigit :
    (fuel n : ℕ) (out : Bytes) → n < fuel → All IsDigit out → All IsDigit (digits fuel n out)
unfolding digits
digits-IsDigit zero n out lt h = h
digits-IsDigit (suc fuel) n out lt h = elim (Bool-cases (ltb n 10)) [
  | inl small ↦ rw small ((omega arith, ground arith), h)
  | inr large ↦ rw large (
      digits-IsDigit fuel (n / 10) ((b'0' + n % 10) ∷ out) (ground arith)
        ((omega arith, omega arith), h))
]

pub decimal-IsDigit : (n : ℕ) → All IsDigit (decimal n)
unfolding decimal
decimal-IsDigit n = digits-IsDigit (suc n) n [] (omega arith) tt

digits-not_empty : (fuel n : ℕ) (c : ℕ) (out : Bytes) → digits fuel n (c ∷ out) ≢ []
unfolding digits
digits-not_empty zero n c out e = cc e
digits-not_empty (suc fuel) n c out e =
    ground (arith, digits-not_empty fuel (n / 10) (b'0' + n % 10) (c ∷ out))

pub decimal-not_empty : (n : ℕ) → decimal n ≢ []
unfolding decimal digits
decimal-not_empty n e = ground (arith, digits-not_empty n (n / 10) (b'0' + n % 10) [])

is_digit-true : (c : ℕ) → IsDigit c → is_digit c ≡ true
unfolding is_digit
is_digit-true c h = ground arith

is_space-false : (c : ℕ) → IsDigit c → is_space c ≡ false
unfolding is_space
is_space-false c h = ground arith

scan_digits-eq : (s : Bytes) (n : ℕ) → All IsDigit s → scan_digits n s ≡ (value n s, [])
unfolding scan_digits value
scan_digits-eq [] n h = refl
scan_digits-eq (c ∷ s) n h =
    rw (is_digit-true c h.0, scan_digits) (scan_digits-eq s (n * 10 + (c - b'0')) h.1)

skip_space-digit : (c : ℕ) (s : Bytes) → IsDigit c → skip_space (c ∷ s) ≡ some (c ∷ s)
unfolding skip_space
skip_space-digit c s h =
    let visible : (c == 10) ≡ false = ground arith in
    rw (visible, is_space-false c h, skip_space) refl

scan_number-digits :
    (c : ℕ) (s : Bytes) → All IsDigit (c ∷ s) → scan_number (c ∷ s) ≡ some (value 0 (c ∷ s), [])
unfolding scan_number
scan_number-digits c s h = rw (is_digit-true c h.0, scan_digits-eq (c ∷ s) 0 h, scan_number) refl

scan_uint-digits :
    (s : Bytes) → s ≢ [] → All IsDigit s → value 0 s < 2 ^ 64 → scan_uint s ≡ some (value 0 s, [])
unfolding scan_uint
scan_uint-digits [] ne h lt = absurd (ne refl)
scan_uint-digits (c ∷ s) ne h lt =
    let small : ltb (value 0 (c ∷ s)) (2 ^ 64) ≡ true = ground arith in
    rw (skip_space-digit c s h.0, scan_number-digits c s h, small, scan_uint) refl

pub scan_uint-decimal : (n : ℕ) → n < 2 ^ 64 → scan_uint (decimal n) ≡ some (n, [])
scan_uint-decimal n lt =
    scan_uint-digits (decimal n) (decimal-not_empty n) (decimal-IsDigit n)
      (omega (arith, value-decimal n))
    ∙ ap (λ m. some (m, [])) (value-decimal n)
