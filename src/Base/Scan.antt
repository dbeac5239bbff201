-- ===== src/Base/Scan.antt =====
-- fmt.Sscanf with the formats "%s:%d" and "%d", step by step as its scanner reads the input: a
-- verb skips spaces first, %s stops at the next space, %d takes a sign and digits, and a literal
-- character of the format must come next in the input. `none` is Sscanf's error.
use Prim.Native.Nat.{ℕ, zero, suc, ◌+◌, ◌-◌, ◌*◌, ◌^◌}
use mathlib.Core.Path.{◌≡◌, refl}
use mathlib.Core.Logic.{inl, inr}
use mathlib.Core.Bool.{Bool, true, false, ◌&&◌, ◌||◌}
use mathlib.Core.Option.{Option, none, some}
use mathlib.Core.List.{[], ◌∷◌}
use native.Mathlib.Omega.{arith}
use earthion_blockchain_dev.Base.Tests.{ltb, leb, ◌==◌, if◌then◌else◌, Option-cases}
use earthion_blockchain_dev.Base.ByteStrings.{Bytes, codes}
use earthion_blockchain_dev.Base.Int.{ℤ, pos, negsuc}

infixl 5 ◌>>=◌
abbrev ◌>>=◌ {ℓ κ} : {A : Type ℓ} {B : Type κ} → Option A → (A → Option B) → Option B
none >>= f = none
some a >>= f = f a

-- The spaces of package fmt below code point 256.
unfoldable pub is_space : ℕ → Bool
is_space c = (leb 9 c && leb c 13) || c == 32 || c == 0x85 || c == 0xA0

-- `SkipSpace`: a newline in the input is an error.
unfoldable pub skip_space : Bytes → Option Bytes
skip_space [] = some []
skip_space (c ∷ s) = elim (c == 10) [
  | true ↦ none
  | false ↦ elim (is_space c) [ true ↦ skip_space s | false ↦ some (c ∷ s) ]
]

-- The characters up to the first space, and the rest.
token : Bytes → Bytes × Bytes
token [] = ([], [])
token (c ∷ s) = let (t, rest) = token s in if is_space c then ([], c ∷ s) else (c ∷ t, rest)

-- The verb %s: the end of the input after the spaces is an error.
scan_string : Bytes → Option (Bytes × Bytes)
scan_string s = elim (skip_space s) [
  | none ↦ none
  | some [] ↦ none
  | some (c ∷ r) ↦ some (token (c ∷ r))
]

-- A literal character of the format.
literal : ℕ → Bytes → Option Bytes
literal c [] = none
literal c (d ∷ s) = if c == d then some s else none

unfoldable pub is_digit : ℕ → Bool
is_digit c = leb b'0' c && leb c b'9'

-- The digits of a number behind `n`, and the rest.
unfoldable pub scan_digits : ℕ → Bytes → ℕ × Bytes
scan_digits n [] = (n, [])
scan_digits n (c ∷ s) = elim (is_digit c) [
  | true ↦ scan_digits (n * 10 + (c - b'0')) s
  | false ↦ (n, c ∷ s)
]

-- At least one digit.
unfoldable pub scan_number : Bytes → Option (ℕ × Bytes)
scan_number [] = none
scan_number (c ∷ s) = if is_digit c then some (scan_digits 0 (c ∷ s)) else none

-- The value of a number with its sign, if an int64 holds it.
signed : Bool → ℕ → Option ℤ
signed false n = if ltb n (2 ^ 63) then some (pos n) else none
signed true zero = some (pos 0)
signed true (suc n) = if ltb n (2 ^ 63) then some (negsuc n) else none

-- The verb %d into an int, after the spaces.
scan_sign : Bytes → Bool × Bytes
scan_sign [] = (false, [])
scan_sign (c ∷ s) =
    if c == b'-' then (true, s) else if c == b'+' then (false, s) else (false, c ∷ s)

unfoldable pub scan_int : Bytes → Option (ℤ × Bytes)
unfolding is_space skip_space is_digit scan_digits scan_number signed scan_sign
scan_int s = do
  r ← skip_space s
  let signs = scan_sign r
  number ← scan_number signs.1
  i ← signed signs.0 number.0
  some (i, number.1)

-- `strconv.Atoi`: a sign, digits and nothing else.
unfoldable pub atoi : Bytes → Option ℤ
unfolding is_digit scan_digits scan_number signed scan_sign
atoi s = do
  let signs = scan_sign s
  number ← scan_number signs.1
  elim number.1 [ [] ↦ signed signs.0 number.0 | c ∷ rest ↦ none ]

-- The verb %d into a uint64.
unfoldable pub scan_uint : Bytes → Option (ℕ × Bytes)
unfolding is_space skip_space is_digit scan_digits scan_number
scan_uint s = do
  r ← skip_space s
  number ← scan_number r
  if ltb number.0 (2 ^ 64) then some number else none

-- `fmt.Sscanf(key, "%s:%d", &txIDHex, &outIdx)`
unfoldable pub sscanf_key : Bytes → Option (Bytes × ℤ)
unfolding is_space token scan_string literal scan_int
sscanf_key s = do
  word ← scan_string s
  r ← literal b':' word.1
  index ← scan_int r
  some (word.0, index.0)

-- After a token no literal colon can follow: what comes is the end or a space.
literal-token : (s : Bytes) → literal b':' (token s).1 ≡ none
unfolding literal token is_space
literal-token [] = refl
literal-token (c ∷ s) = ground (arith, literal-token s)

scan_string-literal :
    (o : Option Bytes) (s : Bytes) {w : Bytes × Bytes}
    → skip_space s ≡ o
    → scan_string s ≡ some w
    → literal b':' w.1 ≡ none
unfolding scan_string
scan_string-literal none s e h = cc (rw (e, scan_string) at h)
scan_string-literal (some []) s e h = cc (rw (e, scan_string) at h)
scan_string-literal (some (c ∷ r)) s {w} e h =
    let p : token (c ∷ r) ≡ w = cc (rw (e, scan_string) at h) in rw (← p) (literal-token (c ∷ r))

-- Reading "%s:%d" fails on every input: %s takes the colon too.
pub sscanf_key_fails : (s : Bytes) → sscanf_key s ≡ none
unfolding sscanf_key
sscanf_key_fails s = elim (Option-cases (scan_string s)) [
  | inl e ↦ rw e
  | inr (w, e) ↦ rw (e, scan_string-literal (skip_space s) s refl e)
]

plain_key : sscanf_key (codes "abc:0") ≡ none
unfolding sscanf_key
plain_key = refl

signed_number : scan_int (codes " -12x") ≡ some (negsuc 11, codes "x")
unfolding scan_int
signed_number = refl

whole_number : atoi (codes "-12") ≡ some (negsuc 11)
unfolding atoi
whole_number = refl

trailing_text : atoi (codes "12x") ≡ none
unfolding atoi
trailing_text = refl
