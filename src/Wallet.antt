-- ===== src/Wallet.antt =====
-- wallet/wallet.go: the keys, addresses and signing. Making keys and the files of wallets stand in
-- Wallet/Files; `VerifySignature` is `verify_signature` of Core/Transaction.
pub mod Address
pub mod Files
use earthion_blockchain_dev.Base.{Option, none, some, Bytes, take}
use earthion_blockchain_dev.Crypto.Hash.{hash}
use earthion_blockchain_dev.Crypto.Base58.{base58_encode, add_checksum}
use earthion_blockchain_dev.Base.Format.{hex_encode}
use earthion_blockchain_dev.Core.Platform.{Platform}

-- `Wallet`
pub record Wallet : Type 0 where
  pub private_key_bytes : Bytes
  pub public_key : Bytes

module _ (p : Platform) where
  -- `GetRawAddress`: the hash has 32 bytes.
  unfoldable pub get_raw_address : Wallet → Bytes
  get_raw_address w = take 20 (hash p.digest w.public_key)

  -- `Address`, `AddressHex`
  unfoldable pub address : Wallet → Bytes
  unfolding get_raw_address
  address w = base58_encode (add_checksum p.digest (get_raw_address w))

  unfoldable pub address_hex : Wallet → Bytes
  address_hex w = hex_encode (address w)

  -- `Sign`; `none` is nil. What the source calls `err` is the pointer to the public key that
  -- `btcec.PrivKeyFromBytes` returns.
  unfoldable pub sign_data : Wallet → Bytes → Option Bytes
  sign_data w message =
      let (private_key, err) = p.priv_key_from_bytes w.private_key_bytes in
      elim err [ some e ↦ none | none ↦ p.ecdsa_sign private_key message ]
