-- ===== src/Crypto/Base58.antt =====
-- crypto/base58.go: Base58 and checksums. The loops over a big.Int are on natural numbers, with the
-- number itself as fuel: each round divides it.
pub mod Digits
pub mod RoundTrip
pub mod Checksum
use earthion_blockchain_dev.Base.{
  ℕ, zero, suc, ◌+◌, ◌-◌, ◌*◌, ◌/◌, ◌%◌, List, [], ◌∷◌, ◌++◌, Option, none, some, Bool, true, false,
  Bytes, bytes_equal, codes, length, get_elem?, take, drop, replicate, ltb, ◌==◌, if◌then◌else◌,
}
use earthion_blockchain_dev.Crypto.Hash.{Digest, double_hash}

abbrev pub base58_alphabet : Bytes
base58_alphabet = codes "123456789ABCDEFGHJKLMNPQRSTUVWXYZabcdefghijkmnopqrstuvwxyz"

-- `base58Alphabet[i]`, in range.
pub symbol : ℕ → ℕ
symbol i = elim (get_elem? base58_alphabet i) [ none ↦ 0 | some c ↦ c ]

-- The loop of `Base58Decode` over the alphabet, from index `i`; `none` is -1.
pub position : ℕ → Bytes → ℕ → Option ℕ
position c [] i = none
position c (a ∷ rest) i = if a == c then some i else position c rest (suc i)

pub index_of : ℕ → Option ℕ
unfolding position
index_of c = position c base58_alphabet 0

-- How many bytes at the front are `c`: leading zeros and leading ones.
pub leading : ℕ → Bytes → ℕ
leading c [] = 0
leading c (b ∷ bs) = if b == c then suc (leading c bs) else 0

-- `num.SetBytes(input)`, behind `n`, and `num.Bytes()`, in front of `out`.
unfoldable pub number : ℕ → Bytes → ℕ
number n [] = n
number n (b ∷ bs) = number (n * 256 + b) bs

pub number_bytes : ℕ → ℕ → Bytes → Bytes
number_bytes zero n out = out
number_bytes (suc fuel) n out = elim (n == 0) [
  | true ↦ out
  | false ↦ number_bytes fuel (n / 256) ((n % 256) ∷ out)
]

-- The loop of `Base58Encode`.
pub base58_digits : ℕ → ℕ → Bytes → Bytes
unfolding symbol
base58_digits zero n out = out
base58_digits (suc fuel) n out = elim (n == 0) [
  | true ↦ out
  | false ↦ base58_digits fuel (n / 58) (symbol (n % 58) ∷ out)
]

-- The loop of `Base58Decode`: an invalid character is an error.
pub base58_number : Bytes → ℕ → Option ℕ
unfolding index_of
base58_number [] n = some n
base58_number (c ∷ cs) n = elim (index_of c) [
  | none ↦ none
  | some i ↦ base58_number cs (n * 58 + i)
]

-- `Base58Encode`
unfoldable pub base58_encode : Bytes → Bytes
unfolding leading number base58_digits
base58_encode [] = []
base58_encode (b ∷ bs) =
    let n = number 0 (b ∷ bs) in replicate (leading 0 (b ∷ bs)) b'1' ++ base58_digits n n []

-- `Base58Decode`; `none` is nil.
unfoldable pub base58_decode : Bytes → Option Bytes
unfolding leading base58_number number_bytes
base58_decode [] = some []
base58_decode (c ∷ cs) = elim (base58_number (c ∷ cs) 0) [
  | none ↦ none
  | some n ↦ some (replicate (leading b'1' (c ∷ cs)) 0 ++ number_bytes n n [])
]

module _ (dg : Digest) where
  -- `Checksum`, `AddChecksum`
  unfoldable pub checksum : Bytes → Bytes
  checksum d = take 4 (double_hash dg d)

  unfoldable pub add_checksum : Bytes → Bytes
  unfolding checksum
  add_checksum d = d ++ checksum d

  -- `VerifyChecksum`: the loop compares all four bytes.
  unfoldable pub verify_checksum : Bytes → Bool
  unfolding checksum
  verify_checksum d =
      if ltb (length d) 4
      then false
      else bytes_equal (drop (length d - 4) d) (checksum (take (length d - 4) d))
