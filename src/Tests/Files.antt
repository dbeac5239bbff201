-- ===== src/Tests/Files.antt =====
-- The round trip of Base58.
use earthion_blockchain_dev.Base.{codes, [], ◌∷◌, some, ◌≡◌, refl, arith}
use earthion_blockchain_dev.Crypto.Base58.{base58_encode, base58_decode}
use earthion_blockchain_dev.Crypto.Base58.RoundTrip.{base58_decode-base58_encode}

base58_decode-base58_encode_example :
    base58_decode (base58_encode (0 ∷ 0 ∷ 255 ∷ 58 ∷ [])) ≡ some (0 ∷ 0 ∷ 255 ∷ 58 ∷ [])
base58_decode-base58_encode_example =
    base58_decode-base58_encode (0 ∷ 0 ∷ 255 ∷ 58 ∷ [])
      (omega arith, (omega arith, (omega arith, (omega arith, tt))))

-- Leading zeros are ones.
base58_encode_runs : base58_encode (0 ∷ 0 ∷ 255 ∷ []) ≡ codes "115Q"
unfolding base58_encode
base58_encode_runs = refl
