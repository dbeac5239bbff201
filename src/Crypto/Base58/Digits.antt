-- ===== src/Crypto/Base58/Digits.antt =====
-- The digits of Base58Encode, read back by Base58Decode.
use earthion_blockchain_dev.Base.{
  ℕ, zero, suc, ◌+◌, ◌*◌, ◌/◌, ◌%◌, ◌≤◌, ◌<◌, ◌∷◌, ◌++◌, none, some, Bool, true, false, ◌&&◌, Bytes,
  replicate, ◌==◌, ◌≡◌, refl, sym, ap, ◌∙◌, arith, inl, inr, Bool-cases, ==_iff,
}
use earthion_blockchain_dev.Crypto.Base58.{symbol, index_of, leading, base58_digits, base58_number}

-- Every digit below `n` has a symbol of its own.
abbrev read_back : ℕ → Bool
read_back zero = true
read_back (suc n) = elim (index_of (symbol n)) [ none ↦ false | some i ↦ (i == n) && read_back n ]

all_read_back : read_back 58 ≡ true
unfolding index_of symbol
all_read_back = refl

index_of-symbol_below : (n d : ℕ) → d < n → read_back n ≡ true → index_of (symbol d) ≡ some d
index_of-symbol_below zero d lt h = absurd (omega arith)
index_of-symbol_below (suc n) d lt h = ground (arith, index_of-symbol_below n d)

index_of-symbol : (d : ℕ) → d < 58 → index_of (symbol d) ≡ some d
index_of-symbol d lt = index_of-symbol_below 58 d lt all_read_back

symbol_zero : symbol 0 ≡ b'1'
unfolding symbol
symbol_zero = refl

index_of_one : index_of b'1' ≡ some 0
unfolding index_of
index_of_one = refl

pub ==_refl : (c : ℕ) → (c == c) ≡ true
==_refl c = ground arith

digits_zero : (fuel n : ℕ) (out : Bytes) → n ≡ 0 → base58_digits fuel n out ≡ out
unfolding base58_digits
digits_zero zero n out e = refl
digits_zero (suc fuel) n out e = rw e refl

digits_step :
    (fuel n : ℕ) (out : Bytes)
    → (n == 0) ≡ false
    → base58_digits (suc fuel) n out ≡ base58_digits fuel (n / 58) (symbol (n % 58) ∷ out)
unfolding base58_digits
digits_step fuel n out e = rw (base58_digits, e) refl

base58_number-symbol :
    (d n : ℕ) (out : Bytes)
    → d < 58
    → base58_number (symbol d ∷ out) n ≡ base58_number out (n * 58 + d)
unfolding base58_number
base58_number-symbol d n out lt = rw (base58_number, index_of-symbol d lt) refl

pub base58_number-digits :
    (fuel n : ℕ) (out : Bytes)
    → n ≤ fuel
    → base58_number (base58_digits fuel n out) 0 ≡ base58_number out n
base58_number-digits zero n out h =
    let z : n ≡ 0 = omega arith in
    ap (λ (s : Bytes). base58_number s 0) (digits_zero zero n out z)
    ∙ ap (λ (m : ℕ). base58_number out m) (sym z)
base58_number-digits (suc fuel) n out h = elim (Bool-cases (n == 0)) [
  | inl none_left ↦
      let z : n ≡ 0 = ground arith in
      ap (λ (s : Bytes). base58_number s 0) (digits_zero (suc fuel) n out z)
      ∙ ap (λ (m : ℕ). base58_number out m) (sym z)
  | inr some_left ↦
      ap (λ (s : Bytes). base58_number s 0) (digits_step fuel n out some_left)
      ∙ base58_number-digits fuel (n / 58) (symbol (n % 58) ∷ out) (ground arith)
      ∙ base58_number-symbol (n % 58) (n / 58) out (omega arith)
      ∙ ap (λ (m : ℕ). base58_number out m) (omega arith)
]

symbol-ne-one : (d : ℕ) → d < 58 → 0 < d → (symbol d == b'1') ≡ false
symbol-ne-one d lt p = elim (Bool-cases (symbol d == b'1')) [
  | inl one ↦
      let same : symbol d ≡ symbol 0 = (==_iff (symbol d) b'1').0 one ∙ sym symbol_zero in
      let equal : d ≡ 0 =
        some_eq (sym (index_of-symbol d lt) ∙ ap index_of same ∙ index_of-symbol 0 (omega arith)) in
      absurd (omega arith)
  | inr other ↦ other
]
  where
    some_eq : {a b : ℕ} → some a ≡ some b → a ≡ b
    some_eq e = cc e

pub leading-digits :
    (fuel n : ℕ) (out : Bytes) → n ≤ fuel → 0 < n → leading b'1' (base58_digits fuel n out) ≡ 0
unfolding leading
leading-digits zero n out h p = absurd (omega arith)
leading-digits (suc fuel) n out h p =
    let positive : (n == 0) ≡ false = ground arith in
    elim (Bool-cases (n / 58 == 0)) [
      | inl last ↦
          let done : base58_digits fuel (n / 58) (symbol (n % 58) ∷ out) ≡ symbol (n % 58) ∷ out =
            digits_zero fuel (n / 58) _ (ground arith) in
          rw
            (
              digits_step fuel n out positive,
              done,
              leading,
              symbol-ne-one (n % 58) (omega arith) (ground arith),
            )
            refl
      | inr more ↦
          rw (digits_step fuel n out positive)
            (leading-digits fuel (n / 58) (symbol (n % 58) ∷ out) (ground arith) (ground arith))
    ]

pub leading-replicate :
    (c z : ℕ) (rest : Bytes) → leading c rest ≡ 0 → leading c (replicate z c ++ rest) ≡ z
unfolding leading
leading-replicate c zero rest h = h
leading-replicate c (suc z) rest h = rw (==_refl c, leading-replicate c z rest h) refl

pub base58_number-replicate :
    (z : ℕ) (rest : Bytes) → base58_number (replicate z b'1' ++ rest) 0 ≡ base58_number rest 0
unfolding base58_number index_of
base58_number-replicate zero rest = refl
base58_number-replicate (suc z) rest = base58_number-replicate z rest
