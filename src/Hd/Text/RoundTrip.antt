-- ===== src/Hd/Text/RoundTrip.antt =====
-- ParseExtendedKey and String.
use earthion_blockchain_dev.Base.{
  ℕ, ◌-◌, ◌^◌, ◌≤◌, ◌<◌, [], ◌∷◌, ◌++◌, append_assoc, some, true, false, Bytes, bytes_equal_refl,
  take, drop, length, length-append, All, All-append, ◌&&◌, leb, ltb, ◌==◌, ◌≡◌, refl, sym, ◌∙◌, ap,
  subst, arith,
}
use earthion_blockchain_dev.Base.Format.{IsByte}
use earthion_blockchain_dev.Base.Outcome.{returns}
use earthion_blockchain_dev.Crypto.Hash.{Digest, hash, double_hash, length-double_hash}
use earthion_blockchain_dev.Crypto.Base58.{number, base58_encode, checksum}
use earthion_blockchain_dev.Crypto.Base58.RoundTrip.{base58_decode-base58_encode}
use earthion_blockchain_dev.Crypto.Base58.Checksum.{
  length-take, take-append_length, drop-append_length,
}
use earthion_blockchain_dev.Wallet.Address.{All-take}
use earthion_blockchain_dev.Hd.{ExtendedKey, uint32_to_bytes}
use earthion_blockchain_dev.Hd.WellFormed.{IsKey}
use earthion_blockchain_dev.Hd.Text.{byte_at, key_data, string, key_of_data, parse_extended_key}

-- The parts of a key that are read back: its byte strings hold bytes, its number is a uint32, and
-- the first byte of the key tells private keys from public ones.
pub record IsPlain (ek : ExtendedKey) : Type 0 where
  pub version_bytes : All IsByte ek.version
  pub parent_bytes : All IsByte ek.parent_f
  pub code_bytes : All IsByte ek.chain_code
  pub key_bytes : All IsByte ek.key
  pub number_uint32 : ek.child_num < 2 ^ 32
  pub kind : ek.is_private ≡ (byte_at 0 ek.key == 0)

take_all : (n : ℕ) (xs : Bytes) → length xs ≡ n → take n xs ≡ xs
take_all n xs e = subst (λ k. take k xs ≡ xs) e (take_length xs)
  where
    take_length : (ys : Bytes) → take (length ys) ys ≡ ys
    take_length [] = refl
    take_length (y ∷ ys) = ap (λ t. y ∷ t) (take_length ys)

take-append_eq : (n : ℕ) (xs ys : Bytes) → length xs ≡ n → take n (xs ++ ys) ≡ xs
take-append_eq n xs ys e = subst (λ k. take k (xs ++ ys) ≡ xs) e (take-append_length xs ys)

drop-append_eq : (n : ℕ) (xs ys : Bytes) → length xs ≡ n → drop n (xs ++ ys) ≡ ys
drop-append_eq n xs ys e = subst (λ k. drop k (xs ++ ys) ≡ ys) e (drop-append_length xs ys)

number-uint32_to_bytes : (n : ℕ) → n < 2 ^ 32 → number 0 (uint32_to_bytes n) ≡ n
unfolding uint32_to_bytes number
number-uint32_to_bytes n h = omega arith

uint32_to_bytes-IsByte : (n : ℕ) → All IsByte (uint32_to_bytes n)
unfolding uint32_to_bytes
uint32_to_bytes-IsByte n = (omega arith, (omega arith, (omega arith, (omega arith, tt))))

four :
    (xs : Bytes) → length xs ≡ 4 → (a : ℕ) × (b : ℕ) × (c : ℕ) × (d : ℕ) × (xs ≡ a ∷ b ∷ c ∷ d ∷ [])
four [] e = absurd (omega (arith, e))
four (a ∷ []) e = absurd (omega (arith, e))
four (a ∷ b ∷ []) e = absurd (omega (arith, e))
four (a ∷ b ∷ c ∷ []) e = absurd (omega (arith, e))
four (a ∷ b ∷ c ∷ d ∷ []) e = (a, b, c, d, refl)
four (a ∷ b ∷ c ∷ d ∷ x ∷ xs) e = absurd (omega (arith, e))

byte_at-append : (xs ys : Bytes) → 1 ≤ length xs → byte_at 0 (xs ++ ys) ≡ byte_at 0 xs
unfolding byte_at
byte_at-append [] ys h = absurd (omega arith)
byte_at-append (x ∷ xs) ys h = refl

-- The fields behind the numbers at fixed places.
code_part : (code key sum : Bytes) → length code ≡ 32 → take 32 ((code ++ key) ++ sum) ≡ code
code_part code key sum e =
    ap (take 32) (append_assoc code key sum) ∙ take-append_eq 32 code (key ++ sum) e

key_part : (code key sum : Bytes) → length code ≡ 32 → drop 32 ((code ++ key) ++ sum) ≡ key ++ sum
key_part code key sum e =
    ap (drop 32) (append_assoc code key sum) ∙ drop-append_eq 32 code (key ++ sum) e

first_byte :
    (code key sum : Bytes)
    → length code ≡ 32
    → length key ≡ 33
    → byte_at 32 ((code ++ key) ++ sum) ≡ byte_at 0 key
unfolding byte_at
first_byte code key sum e long =
    ap (byte_at 0) (key_part code key sum e) ∙ byte_at-append key sum (omega (arith, long))

length-checksum : (dg : Digest) (d : Bytes) → length (checksum dg d) ≡ 4
unfolding checksum
length-checksum dg d = length-take 4 (double_hash dg d) (omega (arith, length-double_hash dg d))

module _ (dg : Digest) where
  -- With the version and the fingerprint spelled out.
  abbrev spelled : ExtendedKey → Bytes → Bytes → ExtendedKey
  spelled ek version parent = record ek { version = version; parent_f = parent }

  key_of_data-spelled :
      (ek : ExtendedKey) (a b c d e f g h : ℕ) (sum : Bytes)
      → IsKey ek
      → IsPlain ek
      → let k = spelled ek (a ∷ b ∷ c ∷ d ∷ []) (e ∷ f ∷ g ∷ h ∷ []) in
        key_of_data dg (key_data dg k ++ sum) ≡ k
  unfolding key_of_data key_data byte_at uint32_to_bytes
  key_of_data-spelled ek a b c d e f g h sum key plain =
      rw
        (
          code_part ek.chain_code ek.key sum key.long_chain_code,
          key_part ek.chain_code ek.key sum key.long_chain_code,
          take-append_eq 33 ek.key sum key.long_key,
          number-uint32_to_bytes ek.child_num plain.number_uint32,
        )
        (ap
          (λ private. record (spelled ek (a ∷ b ∷ c ∷ d ∷ []) (e ∷ f ∷ g ∷ h ∷ [])) {
            is_private = private;
          })
          (ap (λ x. x == 0) (first_byte ek.chain_code ek.key sum key.long_chain_code key.long_key)
            ∙ sym plain.kind))

  key_of_data-key_data :
      (ek : ExtendedKey) (sum : Bytes)
      → IsKey ek
      → IsPlain ek
      → key_of_data dg (key_data dg ek ++ sum) ≡ ek
  key_of_data-key_data ek sum key plain =
      let (a, b, c, d, v) = four ek.version key.long_version in
      let (e, f, g, h, p) = four ek.parent_f key.long_parent in
      subst
        (λ x.
          key_of_data dg (key_data dg (spelled ek x ek.parent_f) ++ sum) ≡ spelled ek x ek.parent_f)
        (sym v)
        (subst
          (λ y.
            key_of_data dg (key_data dg (spelled ek (a ∷ b ∷ c ∷ d ∷ []) y) ++ sum)
            ≡ spelled ek (a ∷ b ∷ c ∷ d ∷ []) y)
          (sym p) (key_of_data-spelled ek a b c d e f g h sum key plain))

  length-key_data : (ek : ExtendedKey) → IsKey ek → length (key_data dg ek) ≡ 78
  unfolding key_data uint32_to_bytes
  length-key_data ek key = omega (
    arith,
    length-append (take 4 ek.version) (
        ek.depth
        ∷ (take 4 ek.parent_f ++ (uint32_to_bytes ek.child_num ++ (ek.chain_code ++ ek.key)))),
    length-append (take 4 ek.parent_f) (uint32_to_bytes ek.child_num ++ (ek.chain_code ++ ek.key)),
    length-append ek.chain_code ek.key,
    length-take 4 ek.version (omega (arith, key.long_version)),
    length-take 4 ek.parent_f (omega (arith, key.long_parent)),
    key.long_chain_code,
    key.long_key,
  )

  module _ (bytes : (d : Bytes) → All IsByte (dg.sha256 d)) where
    key_data-IsByte : (ek : ExtendedKey) → IsKey ek → IsPlain ek → All IsByte (key_data dg ek)
    unfolding key_data
    key_data-IsByte ek key plain =
        All-append IsByte (take 4 ek.version) _ (All-take 4 ek.version plain.version_bytes) (
          key.depth_byte,
          All-append IsByte (take 4 ek.parent_f) _ (All-take 4 ek.parent_f plain.parent_bytes) (
              All-append IsByte (uint32_to_bytes ek.child_num) _
                (uint32_to_bytes-IsByte ek.child_num)
                (All-append IsByte ek.chain_code ek.key plain.code_bytes plain.key_bytes)),
        )

    checksum-IsByte : (d : Bytes) → All IsByte (checksum dg d)
    unfolding checksum double_hash hash
    checksum-IsByte d = All-take 4 (dg.sha256 (dg.sha256 d)) (bytes (dg.sha256 d))

    -- String of a well-formed key whose parts hold bytes and whose first key byte tells whether it
    -- is private returns a text, and ParseExtendedKey of that text is the key, if SHA-256 gives
    -- bytes.
    pub parse_extended_key-string :
        (ek : ExtendedKey)
        → IsKey ek
        → IsPlain ek
        → (text : Bytes) × (string dg ek ≡ returns text) × (parse_extended_key dg text ≡ some ek)
    unfolding string parse_extended_key
    parse_extended_key-string ek key plain =
        let front = key_data dg ek in
        let sum = checksum dg front in
        let four_bytes : length sum ≡ 4 = length-checksum dg front in
        let total : length (front ++ sum) ≡ 82 =
          omega (arith, length-append front sum, four_bytes, length-key_data ek key) in
        let cut : length (front ++ sum) - 4 ≡ length front =
          omega (arith, total, length-key_data ek key) in
        let decoded =
          base58_decode-base58_encode (front ++ sum)
            (All-append IsByte front sum (key_data-IsByte ek key plain) (checksum-IsByte front)) in
        let long : ltb (length (front ++ sum)) 78 ≡ false = ground (arith, total) in
        let readable : (leb 4 (length ek.version) && leb 4 (length ek.parent_f)) ≡ true =
          rw (key.long_version, key.long_parent) refl in
        (
          base58_encode (front ++ sum),
          rw (readable, string) refl,
          rw
              (
                parse_extended_key,
                decoded,
                long,
                cut,
                take-append_length front sum,
                drop-append_length front sum,
                bytes_equal_refl sum,
              )
              (ap some (key_of_data-key_data ek sum key plain)),
        )
