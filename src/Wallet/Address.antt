-- ===== src/Wallet/Address.antt =====
-- What an address holds.
use earthion_blockchain_dev.Base.{
  ℕ, [], ◌∷◌, ◌++◌, some, true, Bytes, All, All-append, take, ◌≡◌, zero, suc,
}
use earthion_blockchain_dev.Base.Format.{IsByte}
use earthion_blockchain_dev.Crypto.Hash.{hash, double_hash}
use earthion_blockchain_dev.Crypto.Base58.{base58_decode, checksum, add_checksum, verify_checksum}
use earthion_blockchain_dev.Crypto.Base58.RoundTrip.{base58_decode-base58_encode}
use earthion_blockchain_dev.Crypto.Base58.Checksum.{verify_checksum-add_checksum}
use earthion_blockchain_dev.Core.Platform.{Platform}
use earthion_blockchain_dev.Wallet.{Wallet, get_raw_address, address}

pub All-take : (n : ℕ) (bs : Bytes) → All IsByte bs → All IsByte (take n bs)
All-take zero bs h = tt
All-take (suc n) [] h = tt
All-take (suc n) (b ∷ bs) h = (h.0, All-take n bs h.1)

-- Base58Decode of a wallet's address is its raw address with four bytes behind it, and
-- VerifyChecksum accepts it, if SHA-256 returns bytes.
pub base58_decode-address :
    (p : Platform)
    → ((d : Bytes) → All IsByte (p.digest.sha256 d))
    → (w : Wallet)
    → (base58_decode (address p w)
        ≡ some (get_raw_address p w ++ checksum p.digest (get_raw_address p w)))
      × (verify_checksum p.digest (get_raw_address p w ++ checksum p.digest (get_raw_address p w))
          ≡ true)
unfolding address add_checksum get_raw_address checksum double_hash hash
base58_decode-address p bytes w =
    let raw = get_raw_address p w in
    let raw_bytes = All-take 20 (hash p.digest w.public_key) (bytes w.public_key) in
    let sum_bytes = All-take 4 (double_hash p.digest raw) (bytes (p.digest.sha256 raw)) in
    (
      base58_decode-base58_encode (add_checksum p.digest raw)
          (All-append IsByte raw (checksum p.digest raw) raw_bytes sum_bytes),
      verify_checksum-add_checksum p.digest raw,
    )
