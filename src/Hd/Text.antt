-- ===== src/Hd/Text.antt =====
-- hd/hd.go: the texts of keys, their addresses, and signing.
pub mod RoundTrip
use earthion_blockchain_dev.Base.{
  ℕ, ◌-◌, ◌%◌, [], ◌∷◌, ◌++◌, Option, none, some, Bool, true, false, Bytes, bytes_equal, take, drop,
  length, leb, ltb, ◌==◌, ◌&&◌, if◌then◌else◌,
}
use earthion_blockchain_dev.Base.Format.{hex_encode}
use earthion_blockchain_dev.Base.Outcome.{Outcome, returns, panics}
use earthion_blockchain_dev.Crypto.Hash.{Digest, hash}
use earthion_blockchain_dev.Crypto.Base58.{number, base58_encode, base58_decode, checksum}
use earthion_blockchain_dev.Hd.{Curve, ExtendedKey, uint32_to_bytes, key_tail, public_key}

-- `data[i]`, in range.
unfoldable pub byte_at : ℕ → Bytes → ℕ
byte_at i bytes = elim (drop i bytes) [ [] ↦ 0 | b ∷ rest ↦ b ]

module _ (dg : Digest) where
  -- `data` of `String`, before the checksum.
  unfoldable pub key_data : ExtendedKey → Bytes
  unfolding uint32_to_bytes
  key_data ek =
      take 4 ek.version
      ++ (ek.depth
          ∷ (take 4 ek.parent_f ++ (uint32_to_bytes ek.child_num ++ (ek.chain_code ++ ek.key))))

  -- `String`: the bytes of the version and of the parent's fingerprint are read one by one.
  unfoldable pub string : ExtendedKey → Outcome Bytes
  unfolding key_data
  string ek =
      if leb 4 (length ek.version) && leb 4 (length ek.parent_f)
      then returns (base58_encode (key_data ek ++ checksum dg (key_data ek)))
      else panics

  -- The key that `ParseExtendedKey` takes from its data.
  unfoldable pub key_of_data : Bytes → ExtendedKey
  unfolding byte_at
  key_of_data bytes = record {
    version = take 4 bytes;
    depth = byte_at 4 bytes;
    parent_f = take 4 (drop 5 bytes);
    child_num = number 0 (take 4 (drop 9 bytes));
    chain_code = take 32 (drop 13 bytes);
    key = take 33 (drop 45 bytes);
    is_private = byte_at 45 bytes == 0;
  }

  -- `ParseExtendedKey`
  unfoldable pub parse_extended_key : Bytes → Option ExtendedKey
  unfolding key_of_data
  parse_extended_key key = elim (base58_decode key) [
    | none ↦ none
    | some bytes ↦
        if ltb (length bytes) 78
        then none
        else if bytes_equal (checksum dg (take (length bytes - 4) bytes))
            (drop (length bytes - 4) bytes)
        then some (key_of_data bytes)
        else none
  ]

module _ (c : Curve) (dg : Digest) where
  -- `PublicKeyBytes`
  unfoldable pub public_key_bytes : ExtendedKey → Outcome Bytes
  public_key_bytes ek = elim (public_key c ek) [ panics ↦ panics | returns k ↦ returns k.key ]

  -- `PubKeyHash`
  unfoldable pub pub_key_hash : ExtendedKey → Outcome Bytes
  unfolding public_key_bytes
  pub_key_hash ek = elim (public_key_bytes ek) [
    | panics ↦ panics
    | returns k ↦ returns (take 20 (hash dg k))
  ]

  -- `Address`, of the public key of a private key.
  unfoldable pub address : ExtendedKey → Outcome Bytes
  unfolding pub_key_hash
  address ek = elim (pub_key_hash ek) [
    | panics ↦ panics
    | returns h ↦ let addr : Bytes = 0 ∷ h in returns (base58_encode (addr ++ checksum dg addr))
  ]

  -- `AddressHex`
  unfoldable pub address_hex : ExtendedKey → Outcome Bytes
  unfolding pub_key_hash
  address_hex ek = elim (pub_key_hash ek) [ panics ↦ panics | returns h ↦ returns (hex_encode h) ]

  -- `PrivateKey`, as the 32 bytes of the key; `none` is the error.
  unfoldable pub private_key : ExtendedKey → Outcome (Option Bytes)
  unfolding key_tail
  private_key ek =
      if ek.is_private
      then elim (key_tail ek) [
        | panics ↦ panics
        | returns rest ↦ returns (some (c.priv_bytes rest))
      ]
      else returns none

  -- `Sign`: `PrivKeyFromBytes` never returns nil.
  unfoldable pub sign : ExtendedKey → Bytes → Outcome (Option Bytes)
  unfolding key_tail
  sign ek bytes =
      if ek.is_private
      then elim (key_tail ek) [ panics ↦ panics | returns rest ↦ returns (c.ecdsa_sign rest bytes) ]
      else returns none
