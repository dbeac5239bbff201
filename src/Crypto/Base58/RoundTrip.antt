-- ===== src/Crypto/Base58/RoundTrip.antt =====
-- Base58Decode and Base58Encode.
use earthion_blockchain_dev.Base.{
  ℕ, zero, suc, ◌+◌, ◌*◌, ◌/◌, ◌%◌, ◌≤◌, ◌<◌, [], ◌∷◌, ◌++◌, some, false, Bytes, replicate, ◌==◌,
  if◌then◌else◌, ◌≡◌, refl, sym, ap, ◌∙◌, arith, All, inl, inr, Bool-cases, ==_iff, ap₂, append-nil,
}
use earthion_blockchain_dev.Base.Format.{IsByte}
use earthion_blockchain_dev.Crypto.Base58.{
  leading, number, number_bytes, base58_digits, base58_number, base58_encode, base58_decode,
}
use earthion_blockchain_dev.Crypto.Base58.Digits.{
  base58_number-digits, leading-digits, leading-replicate, base58_number-replicate,
}

-- The bytes behind the zeros at the front.
abbrev strip : Bytes → Bytes
strip [] = []
strip (b ∷ bs) = if b == 0 then strip bs else b ∷ bs

strip-eq : (bs : Bytes) → bs ≡ replicate (leading 0 bs) 0 ++ strip bs
unfolding leading
strip-eq [] = refl
strip-eq (b ∷ bs) = elim (Bool-cases (b == 0)) [
  | inl e ↦ rw (e, leading) (ap₂ (λ (x : ℕ) (xs : Bytes). x ∷ xs) ((==_iff b 0).0 e) (strip-eq bs))
  | inr e ↦ rw (e, leading) refl
]

number-strip : (bs : Bytes) → number 0 bs ≡ number 0 (strip bs)
unfolding number
number-strip [] = refl
number-strip (b ∷ bs) = elim (Bool-cases (b == 0)) [
  | inl e ↦ rw e (ap (λ (n : ℕ). number n bs) (ground arith) ∙ number-strip bs)
  | inr e ↦ rw e refl
]

number_bytes_fuel :
    (f g n : ℕ) (out : Bytes) → n ≤ f → n ≤ g → number_bytes f n out ≡ number_bytes g n out
unfolding number_bytes
number_bytes_fuel zero zero n out h k = refl
number_bytes_fuel zero (suc g) n out h k = ground arith
number_bytes_fuel (suc f) zero n out h k = ground arith
number_bytes_fuel (suc f) (suc g) n out h k =
    ground (arith, number_bytes_fuel f g (n / 256) ((n % 256) ∷ out))

number_bytes_step :
    (n : ℕ) (out : Bytes)
    → 0 < n
    → number_bytes n n out ≡ number_bytes (n / 256) (n / 256) ((n % 256) ∷ out)
unfolding number_bytes
number_bytes_step zero out p = absurd (omega arith)
number_bytes_step (suc k) out p =
    let positive : (suc k == 0) ≡ false = ground arith in
    rw (number_bytes, positive)
      (number_bytes_fuel k (suc k / 256) (suc k / 256) ((suc k % 256) ∷ out) (omega arith)
        (omega arith))

number_bytes-number :
    (m : ℕ) (bs out : Bytes)
    → 0 < m
    → All IsByte bs
    → number_bytes (number m bs) (number m bs) out ≡ number_bytes m m (bs ++ out)
unfolding number
number_bytes-number m [] out p h = refl
number_bytes-number m (b ∷ bs) out p h =
    number_bytes-number (m * 256 + b) bs out (omega arith) h.1
    ∙ number_bytes_step (m * 256 + b) (bs ++ out) (omega arith)
    ∙ ap₂ (λ (n c : ℕ). number_bytes n n (c ∷ bs ++ out)) (omega arith) (omega arith)

number_bytes_first : (b : ℕ) (out : Bytes) → IsByte b → 0 < b → number_bytes b b out ≡ b ∷ out
unfolding number_bytes
number_bytes_first b out h p =
    let none_left : b / 256 ≡ 0 = omega arith in
    let same : b % 256 ≡ b = omega arith in number_bytes_step b out p ∙ rw (none_left, same) refl

number_bytes-strip :
    (bs : Bytes)
    → All IsByte bs
    → number_bytes (number 0 (strip bs)) (number 0 (strip bs)) [] ≡ strip bs
unfolding number number_bytes
number_bytes-strip [] h = refl
number_bytes-strip (b ∷ bs) h = elim (Bool-cases (b == 0)) [
  | inl e ↦ rw e (number_bytes-strip bs h.1)
  | inr e ↦ rw e (
      ap (λ (m : ℕ). number_bytes (number m bs) (number m bs) []) (omega arith)
      ∙ number_bytes-number b bs [] (ground arith) h.1
      ∙ number_bytes_first b (bs ++ []) h.0 (ground arith)
      ∙ ap (λ (t : Bytes). b ∷ t) (append-nil bs))
]

encode_eq :
    (bs : Bytes)
    → base58_encode bs
      ≡ replicate (leading 0 bs) b'1' ++ base58_digits (number 0 bs) (number 0 bs) []
unfolding base58_encode
encode_eq [] = refl
encode_eq (b ∷ bs) = refl

decode_eq :
    (s : Bytes) {n : ℕ}
    → base58_number s 0 ≡ some n
    → base58_decode s ≡ some (replicate (leading b'1' s) 0 ++ number_bytes n n [])
unfolding base58_decode base58_number number_bytes
decode_eq [] {n} e = let z : n ≡ 0 = zero_of e in rw z refl
  where
    zero_of : some 0 ≡ some n → n ≡ 0
    zero_of q = cc q
decode_eq (c ∷ cs) {n} e = rw (base58_decode, e) refl

leading-all_digits : (n : ℕ) → leading b'1' (base58_digits n n []) ≡ 0
unfolding base58_digits leading
leading-all_digits zero = refl
leading-all_digits (suc n) = leading-digits (suc n) (suc n) [] (omega arith) (omega arith)

-- Base58Decode of Base58Encode of bytes is the bytes, leading zeros included.
pub base58_decode-base58_encode :
    (bs : Bytes) → All IsByte bs → base58_decode (base58_encode bs) ≡ some bs
unfolding base58_number
base58_decode-base58_encode bs h =
    let n = number 0 bs in
    let ds = base58_digits n n [] in
    let z = leading 0 bs in
    let s = replicate z b'1' ++ ds in
    ap base58_decode (encode_eq bs)
    ∙ decode_eq s (base58_number-replicate z ds ∙ base58_number-digits n n [] (omega arith))
    ∙ ap some (
        ap₂ (λ (k : ℕ) (r : Bytes). replicate k 0 ++ r)
          (leading-replicate b'1' z ds (leading-all_digits n))
          (ap (λ (m : ℕ). number_bytes m m []) (number-strip bs) ∙ number_bytes-strip bs h)
        ∙ sym (strip-eq bs))
