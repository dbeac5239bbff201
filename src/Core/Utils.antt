-- ===== src/Core/Utils.antt =====
-- core/utils.go.
use earthion_blockchain_dev.Base.{ℕ, zero, suc, ◌-◌, ◌/◌, ◌%◌, ◌^◌, [], ◌∷◌, Bytes, ◌≡◌, refl}
use earthion_blockchain_dev.Base.Int.{ℤ, pos, negsuc, minus_one}
use earthion_blockchain_dev.Base.Format.{format_int}

-- The 64-bit pattern of an int64.
word64 : ℤ → ℕ
word64 (pos n) = n % 2 ^ 64
word64 (negsuc n) = 2 ^ 64 - 1 - n % 2 ^ 64

-- The low `k` bytes of a number, the highest first.
big_endian : ℕ → ℕ → Bytes
big_endian zero n = []
big_endian (suc k) n = (n / 256 ^ k % 256) ∷ big_endian k n

-- `IntToHex`: eight bytes, big-endian.
unfoldable pub int_to_hex : ℤ → Bytes
unfolding word64 big_endian
int_to_hex n = big_endian 8 (word64 n)

-- `itoa`
unfoldable pub itoa : ℤ → Bytes
itoa i = format_int i

int_to_hex-minus_one : int_to_hex minus_one ≡ 255 ∷ 255 ∷ 255 ∷ 255 ∷ 255 ∷ 255 ∷ 255 ∷ 255 ∷ []
unfolding int_to_hex
int_to_hex-minus_one = refl
