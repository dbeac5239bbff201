-- ===== src/Base/Format.antt =====
-- The Go formats that the program prints and reads back: hex.EncodeToString, hex.DecodeString,
-- the verb %d, and the key fmt.Sprintf("%s:%d", txID, index) of an output.
use Prim.Native.Nat.{ℕ, zero, suc, ◌+◌, ◌-◌, ◌*◌, ◌/◌, ◌%◌, ◌<◌}
use mathlib.Core.Path.{◌≡◌, refl, sym, ap, ap₂, ◌∙◌}
use mathlib.Core.Logic.{◌≢◌, inl, inr}
use mathlib.Core.Bool.{◌&&◌}
use mathlib.Core.Option.{Option, none, some}
use mathlib.Core.List.{[], ◌∷◌, ◌++◌}
use native.Mathlib.Omega.{arith}
use earthion_blockchain_dev.Base.Tests.{ltb, leb, if◌then◌else◌, Bool-cases}
use earthion_blockchain_dev.Base.Lists.{All}
use earthion_blockchain_dev.Base.ByteStrings.{Bytes}
use earthion_blockchain_dev.Base.Int.{ℤ, pos, negsuc}

abbrev pub IsByte : ℕ → Type 0
IsByte b = b < 256

hex_digit : ℕ → ℕ
hex_digit n = if ltb n 10 then b'0' + n else b'a' + n - 10

-- `hex.EncodeToString`
unfoldable pub hex_encode : Bytes → Bytes
unfolding hex_digit
hex_encode [] = []
hex_encode (b ∷ bs) = hex_digit (b / 16) ∷ hex_digit (b % 16) ∷ hex_encode bs

unhex : ℕ → Option ℕ
unhex c =
    if leb b'0' c && leb c b'9'
    then some (c - b'0')
    else if leb b'a' c && leb c b'f'
    then some (c - b'a' + 10)
    else if leb b'A' c && leb c b'F'
    then some (c - b'A' + 10)
    else none

join_nibbles : Option ℕ → Option ℕ → Option Bytes → Option Bytes
join_nibbles (some h) (some l) (some bs) = some ((h * 16 + l) ∷ bs)
join_nibbles _ _ _ = none

-- `hex.DecodeString` where its error is tested: `none` on an odd length or a byte that is no digit.
unfoldable pub hex_decode : Bytes → Option Bytes
unfolding unhex join_nibbles
hex_decode [] = some []
hex_decode (c ∷ []) = none
hex_decode (c ∷ d ∷ cs) = join_nibbles (unhex c) (unhex d) (hex_decode cs)

-- `b, _ := hex.DecodeString(s)`: the bytes before the first error.
hex_prefix_step : Option ℕ → Option ℕ → Bytes → Bytes
hex_prefix_step (some h) (some l) bs = (h * 16 + l) ∷ bs
hex_prefix_step _ _ _ = []

unfoldable pub hex_decode_prefix : Bytes → Bytes
unfolding unhex hex_prefix_step
hex_decode_prefix [] = []
hex_decode_prefix (c ∷ []) = []
hex_decode_prefix (c ∷ d ∷ cs) = hex_prefix_step (unhex c) (unhex d) (hex_decode_prefix cs)

unhex-hex_digit : (n : ℕ) → n < 16 → unhex (hex_digit n) ≡ some n
unfolding unhex hex_digit
unhex-hex_digit n h = ground arith

pub hex_decode-hex_encode : (bs : Bytes) → All IsByte bs → hex_decode (hex_encode bs) ≡ some bs
unfolding hex_decode hex_encode
hex_decode-hex_encode [] h = refl
hex_decode-hex_encode (b ∷ bs) (hb, hbs) =
    unfold join_nibbles in
    rw
      (
        unhex-hex_digit (b / 16) (omega arith),
        unhex-hex_digit (b % 16) (omega arith),
        hex_decode-hex_encode bs hbs,
      )
      (ap (λ (x : ℕ). some (x ∷ bs)) (omega arith))

hex_digit_injective : (m n : ℕ) → hex_digit m ≡ hex_digit n → m ≡ n
unfolding hex_digit
hex_digit_injective m n h = ground arith

hex_digit-ne-colon : (n : ℕ) → hex_digit n ≢ b':'
unfolding hex_digit
hex_digit-ne-colon n h = ground arith

div_mod_injective : (a b : ℕ) → a / 16 ≡ b / 16 → a % 16 ≡ b % 16 → a ≡ b
div_mod_injective a b p q = omega arith

-- `fmt.Sprintf("%d", n)` of a number that is not negative; `fuel` is more than `n`.
unfoldable pub digits : ℕ → ℕ → Bytes → Bytes
digits zero n out = out
digits (suc fuel) n out =
    let more = digits fuel (n / 10) ((b'0' + n % 10) ∷ out) in
    if ltb n 10 then (b'0' + n) ∷ out else more

unfoldable pub decimal : ℕ → Bytes
unfolding digits
decimal n = digits (suc n) n []

-- `fmt.Sprintf("%d", i)`
unfoldable pub format_int : ℤ → Bytes
unfolding decimal
format_int (pos n) = decimal n
format_int (negsuc n) = b'-' ∷ decimal (suc n)

-- The number that digits spell behind `m`.
unfoldable pub value : ℕ → Bytes → ℕ
value m [] = m
value m (c ∷ cs) = value (m * 10 + (c - b'0')) cs

value-digits : (fuel n : ℕ) (out : Bytes) → n < fuel → value 0 (digits fuel n out) ≡ value n out
unfolding value digits
value-digits zero n out h = absurd (omega arith)
value-digits (suc fuel) n out h = elim (Bool-cases (ltb n 10)) [
  | inl small ↦ rw small (ap (λ (m : ℕ). value m out) (omega arith))
  | inr large ↦ rw large (
      value-digits fuel (n / 10) ((b'0' + n % 10) ∷ out) (ground arith)
      ∙ ap (λ (m : ℕ). value m out) (omega arith))
]

digits_head : (fuel n : ℕ) (out : Bytes) (rest : Bytes) → n < fuel → digits fuel n out ≢ b'-' ∷ rest
unfolding digits
digits_head zero n out rest h = absurd (omega arith)
digits_head (suc fuel) n out rest h =
    ground (arith, digits_head fuel (n / 10) ((b'0' + n % 10) ∷ out) rest)

pub value-decimal : (n : ℕ) → value 0 (decimal n) ≡ n
unfolding decimal value
value-decimal n = value-digits (suc n) n [] (omega arith)

decimal_injective : (m n : ℕ) → decimal m ≡ decimal n → m ≡ n
decimal_injective m n h = cc (value-decimal m, value-decimal n, ap (value 0) h)

decimal_head : (n : ℕ) (rest : Bytes) → decimal n ≢ b'-' ∷ rest
unfolding decimal
decimal_head n rest = digits_head (suc n) n [] rest (omega arith)

format_int_injective : (a b : ℤ) → format_int a ≡ format_int b → a ≡ b
unfolding format_int
format_int_injective (pos m) (pos n) h = ap pos (decimal_injective m n h)
format_int_injective (pos m) (negsuc n) h = absurd (decimal_head m _ h)
format_int_injective (negsuc m) (pos n) h = absurd (decimal_head n _ (sym h))
format_int_injective (negsuc m) (negsuc n) h =
    ap negsuc (suc_injective m n (decimal_injective (suc m) (suc n) (tail_eq h)))
  where
    suc_injective : (a b : ℕ) → suc a ≡ suc b → a ≡ b
    suc_injective a b e = omega arith

    tail_eq : {x : ℕ} {xs ys : Bytes} → x ∷ xs ≡ x ∷ ys → xs ≡ ys
    tail_eq e = cc

-- `fmt.Sprintf("%s:%d", hex.EncodeToString(txid), index)`: the key of an output.
unfoldable pub outpoint_key : Bytes → ℤ → Bytes
outpoint_key txid index = hex_encode txid ++ b':' ∷ format_int index

hex_encode-append_injective :
    (a b s t : Bytes) → hex_encode a ++ b':' ∷ s ≡ hex_encode b ++ b':' ∷ t → (a ≡ b) × (s ≡ t)
unfolding hex_encode
hex_encode-append_injective [] [] s t h = (refl, cc)
hex_encode-append_injective [] (y ∷ b) s t h = absurd (hex_digit-ne-colon (y / 16) (cc))
hex_encode-append_injective (x ∷ a) [] s t h = absurd (hex_digit-ne-colon (x / 16) (cc))
hex_encode-append_injective (x ∷ a) (y ∷ b) s t h =
    let p = hex_encode-append_injective a b s t (cc) in
    let high = hex_digit_injective (x / 16) (y / 16) (cc) in
    let low = hex_digit_injective (x % 16) (y % 16) (cc) in
    (ap₂ ◌∷◌ (div_mod_injective x y high low) p.0, p.1)

-- Two outputs have one key only if they are the same output of the same transaction.
pub outpoint_key_injective :
    (a b : Bytes) (i j : ℤ) → outpoint_key a i ≡ outpoint_key b j → (a ≡ b) × (i ≡ j)
unfolding outpoint_key
outpoint_key_injective a b i j h =
    let p = hex_encode-append_injective a b (format_int i) (format_int j) h in
    (p.0, format_int_injective i j p.1)

pub hex_encode_injective : (a b : Bytes) → hex_encode a ≡ hex_encode b → a ≡ b
hex_encode_injective a b h =
    (hex_encode-append_injective a b [] [] (ap (λ (s : Bytes). s ++ b':' ∷ []) h)).0
