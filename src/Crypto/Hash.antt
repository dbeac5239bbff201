-- ===== src/Crypto/Hash.antt =====
-- crypto/hash.go. SHA-256 itself is the Go library's: a parameter, with the length of its result.
use earthion_blockchain_dev.Base.{
  ℕ, ◌+◌, ◌*◌, ◌%◌, [], ◌∷◌, ◌++◌, Bytes, length, replicate, ◌≡◌, refl,
}

pub record Digest : Type 0 where
  pub sha256 : Bytes → Bytes
  pub length-sha256 : (d : Bytes) → length (sha256 d) ≡ 32

module _ (dg : Digest) where
  -- `Hash`
  unfoldable pub hash : Bytes → Bytes
  hash d = dg.sha256 d

  -- `DoubleHash`
  unfoldable pub double_hash : Bytes → Bytes
  unfolding hash
  double_hash d = hash (hash d)

  pub length-hash : (d : Bytes) → length (hash d) ≡ 32
  unfolding hash
  length-hash d = dg.length-sha256 d

  pub length-double_hash : (d : Bytes) → length (double_hash d) ≡ 32
  unfolding double_hash
  length-double_hash d = dg.length-sha256 _

-- A digest to run the definitions with: the sum of the bytes, behind 31 zeros.
abbrev pub byte_sum : Bytes → ℕ
byte_sum [] = 7
byte_sum (b ∷ bs) = (3 * byte_sum bs + b) % 256

abbrev pub toy_digest : Digest
toy_digest = record { sha256 = λ d. replicate 31 0 ++ byte_sum d ∷ []; length-sha256 = λ d. refl }
