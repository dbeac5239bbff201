-- ===== src/Hd.antt =====
-- hd/hd.go: hierarchical keys. HMAC-SHA-512 and the secp256k1 curve are parameters, with the
-- lengths of their results. A slice out of range panics; `none` is an error.
pub mod WellFormed
pub mod Derive
pub mod Path
pub mod Text
pub mod Derived
use earthion_blockchain_dev.Base.{
  ℕ, zero, suc, ◌+◌, ◌-◌, ◌*◌, ◌/◌, ◌%◌, ◌^◌, ◌≤◌, List, [], ◌∷◌, ◌++◌, Option, none, some, Bool,
  true, false, not, ◌&&◌, ◌||◌, Bytes, bytes_equal, codes, take, drop, length, last?, leb, ltb,
  ◌==◌, if◌then◌else◌, ◌≡◌, refl,
}
use earthion_blockchain_dev.Base.Outcome.{Outcome, returns, panics}
use earthion_blockchain_dev.Crypto.Hash.{Digest, hash}
use earthion_blockchain_dev.Crypto.Base58.{
  number, number_bytes, base58_encode, base58_decode, checksum,
}
use earthion_blockchain_dev.Core.Transaction.{is_empty}

-- `hmac.New(sha512.New, key)` on data; of secp256k1 the order of the group, `PrivKeyFromBytes` as
-- the 32 bytes of Serialize and as the number of ToECDSA().D, its compressed public key, and the
-- signature of data.
pub record Curve : Type 0 where
  pub hmac_sha512 : Bytes → Bytes → Bytes
  pub length-hmac_sha512 : (k d : Bytes) → length (hmac_sha512 k d) ≡ 64
  pub order : ℕ
  pub priv_bytes : Bytes → Bytes
  pub length-priv_bytes : (k : Bytes) → length (priv_bytes k) ≡ 32
  pub priv_number : Bytes → ℕ
  pub pub_bytes : Bytes → Bytes
  pub length-pub_bytes : (k : Bytes) → length (pub_bytes k) ≡ 33
  pub ecdsa_sign : Bytes → Bytes → Option Bytes

abbrev pub hardened_offset : ℕ
hardened_offset = 2 ^ 31

-- `ExtendedKey`: a byte and a uint32 are numbers.
pub record ExtendedKey : Type 0 where
  pub version : Bytes
  pub depth : ℕ
  pub parent_f : Bytes
  pub child_num : ℕ
  pub chain_code : Bytes
  pub key : Bytes
  pub is_private : Bool

abbrev pub private_version : Bytes
private_version = 0x04 ∷ 0x88 ∷ 0xAD ∷ 0xE4 ∷ []

abbrev pub public_version : Bytes
public_version = 0x04 ∷ 0x88 ∷ 0xB2 ∷ 0x1E ∷ []

-- `uint32ToBytes`
unfoldable pub uint32_to_bytes : ℕ → Bytes
uint32_to_bytes n = n / 2 ^ 24 % 256 ∷ n / 2 ^ 16 % 256 ∷ n / 2 ^ 8 % 256 ∷ n % 256 ∷ []

-- `ek.Key[1:]`
unfoldable pub key_tail : ExtendedKey → Outcome Bytes
key_tail ek = elim ek.key [ [] ↦ panics | b ∷ rest ↦ returns rest ]

-- `NeuteredKey`
unfoldable pub neutered_key : ExtendedKey → Outcome (Option ExtendedKey)
unfolding key_tail
neutered_key ek =
    if ek.is_private
    then elim (key_tail ek) [
      | panics ↦ panics
      | returns rest ↦
          returns (some (record ek { version = public_version; key = rest; is_private = false }))
    ]
    else returns none

module _ (c : Curve) where
  -- `NewMasterKey`
  unfoldable pub new_master_key : Bytes → Option ExtendedKey
  new_master_key seed =
      if ltb (length seed) 16 || ltb 64 (length seed)
      then none
      else (let il = c.hmac_sha512 (codes "Bitcoin seed") seed in
          some (record {
            version = private_version;
            depth = 0;
            parent_f = 0 ∷ 0 ∷ 0 ∷ 0 ∷ [];
            child_num = 0;
            chain_code = drop 32 il;
            key = 0 ∷ take 32 il;
            is_private = true;
          }))

  -- `PublicKey`
  unfoldable pub public_key : ExtendedKey → Outcome ExtendedKey
  unfolding key_tail
  public_key ek =
      if ek.is_private
      then elim (key_tail ek) [
        | panics ↦ panics
        | returns rest ↦
            returns
              (record ek { version = public_version; key = c.pub_bytes rest; is_private = false })
      ]
      else returns ek

  -- The data that `ChildKey` authenticates, without the index.
  unfoldable pub child_data : ExtendedKey → Bool → Outcome Bytes
  unfolding public_key
  child_data ek is_hardened =
      if is_hardened
      then returns ek.key
      else elim (public_key ek) [ panics ↦ panics | returns k ↦ returns k.key ]

  -- `newKeyBytes` of `ChildKey`: of a private parent its number and `childKeyInt` added modulo the
  -- order.
  unfoldable pub child_key_bytes : ExtendedKey → Bytes → Outcome Bytes
  unfolding key_tail
  child_key_bytes ek child_bytes =
      if ek.is_private
      then elim (key_tail ek) [
        | panics ↦ panics
        | returns rest ↦
            let d = (c.priv_number rest + number 0 child_bytes) % c.order in
            returns (0 ∷ c.priv_bytes (number_bytes d d []))
      ]
      else returns (c.pub_bytes child_bytes)

module _ (c : Curve) (dg : Digest) where
  -- `parentFP` of `ChildKey`.
  abbrev pub parent_fingerprint : ExtendedKey → Bytes
  parent_fingerprint ek = if is_empty ek.parent_f then take 4 (hash dg ek.key) else ek.parent_f

  -- `ChildKey`, the child of the given chain code and key.
  abbrev pub make_child : ExtendedKey → ℕ → Bytes → Bytes → ExtendedKey
  make_child ek index chain_code key = record {
    version = ek.version;
    depth = (ek.depth + 1) % 256;
    parent_f = parent_fingerprint ek;
    child_num = index;
    chain_code = chain_code;
    key = key;
    is_private = ek.is_private;
  }

  -- `ChildKey`
  unfoldable pub child_key : ExtendedKey → ℕ → Outcome (Option ExtendedKey)
  child_key ek index =
      let is_hardened = leb hardened_offset index in
      if not ek.is_private && is_hardened
      then returns none
      else elim (child_data c ek is_hardened) [
        | panics ↦ panics
        | returns parent ↦
            let il = c.hmac_sha512 ek.chain_code (parent ++ uint32_to_bytes index) in
            elim (child_key_bytes c ek (take 32 il)) [
              | panics ↦ panics
              | returns key ↦ returns (some (make_child ek index (drop 32 il) key))
            ]
      ]

  -- The loop of `DerivePath`.
  unfoldable pub derive_all : ExtendedKey → List ℕ → Outcome (Option ExtendedKey)
  unfolding child_key
  derive_all ek [] = returns (some ek)
  derive_all ek (index ∷ rest) = elim (child_key ek index) [
    | panics ↦ panics
    | returns none ↦ returns none
    | returns (some child) ↦ derive_all child rest
  ]
