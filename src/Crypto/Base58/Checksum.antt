-- ===== src/Crypto/Base58/Checksum.antt =====
-- VerifyChecksum and AddChecksum.
use earthion_blockchain_dev.Base.{
  ℕ, zero, suc, ◌+◌, ◌-◌, ◌≤◌, [], ◌∷◌, ◌++◌, true, false, Bytes, length, ltb, ◌≡◌, refl, ap, arith,
  take, drop, length-append, bytes_equal_refl,
}
use earthion_blockchain_dev.Crypto.Hash.{Digest, double_hash, length-double_hash}
use earthion_blockchain_dev.Crypto.Base58.{checksum, add_checksum, verify_checksum}

pub take-append_length : (xs ys : Bytes) → take (length xs) (xs ++ ys) ≡ xs
take-append_length [] ys = refl
take-append_length (x ∷ xs) ys = ap (λ (t : Bytes). x ∷ t) (take-append_length xs ys)

pub drop-append_length : (xs ys : Bytes) → drop (length xs) (xs ++ ys) ≡ ys
drop-append_length [] ys = refl
drop-append_length (x ∷ xs) ys = drop-append_length xs ys

pub length-take : (n : ℕ) (xs : Bytes) → n ≤ length xs → length (take n xs) ≡ n
length-take zero xs h = refl
length-take (suc n) [] h = absurd (omega arith)
length-take (suc n) (x ∷ xs) h = ap suc (length-take n xs (omega arith))

-- VerifyChecksum accepts what AddChecksum returns.
pub verify_checksum-add_checksum :
    (dg : Digest) (d : Bytes) → verify_checksum dg (add_checksum dg d) ≡ true
unfolding verify_checksum add_checksum checksum
verify_checksum-add_checksum dg d =
    let c = take 4 (double_hash dg d) in
    let four : length c ≡ 4 =
      length-take 4 (double_hash dg d) (let e = length-double_hash dg d in omega arith) in
    let total : length (d ++ c) ≡ length d + length c = length-append d c in
    let front : length (d ++ c) - 4 ≡ length d = omega arith in
    let long : ltb (length (d ++ c)) 4 ≡ false = ground arith in
    rw (long, front, take-append_length d c, drop-append_length d c) (bytes_equal_refl c)
