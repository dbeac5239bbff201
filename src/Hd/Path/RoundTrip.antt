-- ===== src/Hd/Path/RoundTrip.antt =====
-- parsePath on the usual way to write a path.
use earthion_blockchain_dev.Base.{
  ℕ, ◌-◌, ◌^◌, ◌≤◌, ◌<◌, List, [], ◌∷◌, ◌++◌, map, append_assoc, append-nil, some, Bool, true,
  false, Bytes, bytes_equal, length, length-append, last?, last?-append, All, All-append, ltb, ◌==◌,
  if◌then◌else◌, ◌≡◌, ◌≢◌, refl, sym, ◌∙◌, ap, arith, Bool-cases, inl, inr,
}
use earthion_blockchain_dev.Base.Format.{decimal}
use earthion_blockchain_dev.Base.Scan.{scan_uint}
use earthion_blockchain_dev.Base.Decimal.{
  IsDigit, decimal-IsDigit, decimal-not_empty, scan_uint-decimal,
}
use earthion_blockchain_dev.Crypto.Base58.Checksum.{take-append_length}
use earthion_blockchain_dev.Core.Transaction.{is_empty}
use earthion_blockchain_dev.Hd.{hardened_offset}
use earthion_blockchain_dev.Hd.Path.{
  split_from, split_path, strip_quote, path_index, parse_part, parse_parts, strip_master,
  parse_path,
}

-- An index as paths spell it: a hardened one without its offset and with a quote.
abbrev pub index_text : ℕ → Bytes
index_text i =
    if ltb i hardened_offset then decimal i else decimal (i - hardened_offset) ++ b'\'' ∷ []

abbrev pub tail_text : List ℕ → Bytes
tail_text [] = []
tail_text (i ∷ is) = b'/' ∷ (index_text i ++ tail_text is)

-- A path like "m/44'/0'/0".
abbrev pub path_text : List ℕ → Bytes
path_text is = b'm' ∷ tail_text is

-- A character of an index.
abbrev IsIndexChar : ℕ → Type 0
IsIndexChar ch = ch ≢ b'/'

digit-IsIndexChar : (s : Bytes) → All IsDigit s → All IsIndexChar s
digit-IsIndexChar [] h = tt
digit-IsIndexChar (ch ∷ s) h = ((λ e. omega (arith, e, h.0)), digit-IsIndexChar s h.1)

index_text-IsIndexChar : (i : ℕ) → All IsIndexChar (index_text i)
index_text-IsIndexChar i = elim (Bool-cases (ltb i hardened_offset)) [
  | inl normal ↦ rw normal (digit-IsIndexChar (decimal i) (decimal-IsDigit i))
  | inr hardened ↦ rw hardened (
      All-append IsIndexChar (decimal (i - hardened_offset)) (b'\'' ∷ [])
        (digit-IsIndexChar _ (decimal-IsDigit (i - hardened_offset))) ((λ e. omega (arith, e)), tt))
]

append-not_empty : (xs ys : Bytes) → xs ≢ [] → xs ++ ys ≢ []
append-not_empty [] ys h = absurd (h refl)
append-not_empty (x ∷ xs) ys h = λ e. cc e

index_text-not_empty : (i : ℕ) → index_text i ≢ []
index_text-not_empty i = elim (Bool-cases (ltb i hardened_offset)) [
  | inl normal ↦ rw normal (decimal-not_empty i)
  | inr hardened ↦ rw hardened (
      append-not_empty (decimal (i - hardened_offset)) (b'\'' ∷ [])
        (decimal-not_empty (i - hardened_offset)))
]

split_from-word :
    (word rest current : Bytes)
    → All IsIndexChar word
    → split_from (word ++ rest) current ≡ split_from rest (current ++ word)
unfolding split_from
split_from-word [] rest current h = ap (split_from rest) (sym (append-nil current))
split_from-word (ch ∷ word) rest current h =
    let other : (ch == b'/') ≡ false = ground (arith, h.0) in
    rw (other, split_from)
      (split_from-word word rest (current ++ ch ∷ []) h.1
        ∙ ap (split_from rest) (append_assoc current (ch ∷ []) word))

is_empty-false : (xs : Bytes) → xs ≢ [] → is_empty xs ≡ false
is_empty-false [] h = absurd (h refl)
is_empty-false (x ∷ xs) h = refl

split_from-tail_text :
    (is : List ℕ) (current : Bytes)
    → current ≢ []
    → split_from (tail_text is) current ≡ current ∷ map index_text is
unfolding split_from
split_from-tail_text [] current h = rw (is_empty-false current h) refl
split_from-tail_text (i ∷ is) current h =
    rw (is_empty-false current h, split_from)
      (ap (λ ps. current ∷ ps)
        (split_from-word (index_text i) (tail_text is) [] (index_text-IsIndexChar i)
          ∙ split_from-tail_text is (index_text i) (index_text-not_empty i)))

split_path-path_text :
    (i : ℕ) (is : List ℕ) → split_path (strip_master (path_text (i ∷ is))) ≡ map index_text (i ∷ is)
unfolding split_path strip_master bytes_equal
split_path-path_text i is =
    split_from-word (index_text i) (tail_text is) [] (index_text-IsIndexChar i)
    ∙ split_from-tail_text is (index_text i) (index_text-not_empty i)

last-IsDigit : (s : Bytes) → s ≢ [] → All IsDigit s → (ch : ℕ) × (last? s ≡ some ch) × IsDigit ch
last-IsDigit [] ne h = absurd (ne refl)
last-IsDigit (ch ∷ []) ne h = (ch, refl, h.0)
last-IsDigit (ch ∷ d ∷ s) ne h = last-IsDigit (d ∷ s) (λ e. cc e) h.1

strip_quote-digits : (s : Bytes) → s ≢ [] → All IsDigit s → strip_quote s ≡ (s, false)
unfolding strip_quote
strip_quote-digits s ne h =
    let (ch, l, d) = last-IsDigit s ne h in
    let other : (ch == b'\'') ≡ false = ground (arith, d) in rw (l, other, strip_quote) refl

strip_quote-quoted : (s : Bytes) → strip_quote (s ++ b'\'' ∷ []) ≡ (s, true)
unfolding strip_quote
strip_quote-quoted s =
    let cut : length (s ++ b'\'' ∷ []) - 1 ≡ length s =
      omega (arith, length-append s (b'\'' ∷ [])) in
    rw (last?-append s b'\'', cut, take-append_length s (b'\'' ∷ []), strip_quote) refl

parse_part-eq :
    (part digits : Bytes) (is_hardened : Bool) (n : ℕ)
    → strip_quote part ≡ (digits, is_hardened)
    → scan_uint digits ≡ some (n, [])
    → parse_part part ≡ some (path_index n is_hardened)
unfolding parse_part
parse_part-eq part digits is_hardened n e f =
    rw (e, f, parse_part) (ap (λ (r : Bytes × Bool). some (path_index n r.1)) e)

parse_part-index_text : (i : ℕ) → i < 2 ^ 32 → parse_part (index_text i) ≡ some i
unfolding path_index
parse_part-index_text i lt = elim (Bool-cases (ltb i hardened_offset)) [
  | inl normal ↦ rw normal (
      parse_part-eq (decimal i) (decimal i) false i
        (strip_quote-digits (decimal i) (decimal-not_empty i) (decimal-IsDigit i))
        (scan_uint-decimal i (omega arith))
      ∙ ap some (omega arith))
  | inr hardened ↦
      let j = i - hardened_offset in
      let large : hardened_offset ≤ i = ground arith in
      rw hardened (
        parse_part-eq (decimal j ++ b'\'' ∷ []) (decimal j) true j (strip_quote-quoted (decimal j))
          (scan_uint-decimal j (omega arith))
        ∙ ap some (omega (arith, large)))
]

parse_parts-index_text :
    (is : List ℕ) → All (λ i. i < 2 ^ 32) is → parse_parts (map index_text is) ≡ some is
unfolding parse_parts
parse_parts-index_text [] h = refl
parse_parts-index_text (i ∷ is) h =
    rw (parse_part-index_text i h.0, parse_parts-index_text is h.1, parse_parts) refl

-- parsePath of the usual text of a path, "m" and one "/" and number for each index, the number of a
-- hardened index without its offset and with a quote, is the list of the indices, if there is at
-- least one and all are below 2^32.
pub parse_path-path_text :
    (i : ℕ) (is : List ℕ)
    → All (λ k. k < 2 ^ 32) (i ∷ is)
    → parse_path (path_text (i ∷ is)) ≡ some (i ∷ is)
unfolding parse_path
parse_path-path_text i is h =
    ap parse_parts (split_path-path_text i is) ∙ parse_parts-index_text (i ∷ is) h
