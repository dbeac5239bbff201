-- ===== src/Hd/Path.antt =====
-- hd/hd.go, splitPath, parsePath and DerivePath, on ASCII paths.
pub mod RoundTrip
use earthion_blockchain_dev.Base.{
  ℕ, ◌+◌, ◌-◌, ◌%◌, ◌^◌, List, [], ◌∷◌, ◌++◌, Option, none, some, Bool, true, false, Bytes,
  bytes_equal, codes, take, drop, length, last?, ◌==◌, if◌then◌else◌,
}
use earthion_blockchain_dev.Base.Scan.{scan_uint}
use earthion_blockchain_dev.Base.Outcome.{Outcome, returns}
use earthion_blockchain_dev.Crypto.Hash.{Digest}
use earthion_blockchain_dev.Core.Transaction.{is_empty}
use earthion_blockchain_dev.Hd.{Curve, ExtendedKey, hardened_offset, derive_all}

-- The loop of `splitPath`, with `current` and the parts behind it.
unfoldable pub split_from : Bytes → Bytes → List Bytes
split_from [] current = if is_empty current then [] else current ∷ []
split_from (ch ∷ path) current = elim (ch == b'/') [
  | false ↦ split_from path (current ++ ch ∷ [])
  | true ↦ elim (is_empty current) [
    | true ↦ split_from path []
    | false ↦ current ∷ split_from path []
  ]
]

-- `splitPath`
unfoldable pub split_path : Bytes → List Bytes
unfolding split_from
split_path path = split_from path []

-- `part[:len(part)-1]` if the part ends in a quote, and whether it does.
unfoldable pub strip_quote : Bytes → Bytes × Bool
strip_quote part = elim (last? part) [
  | none ↦ (part, false)
  | some ch ↦ if ch == b'\'' then (take (length part - 1) part, true) else (part, false)
]

-- `index` of `parsePath`: uint32 arithmetic.
unfoldable pub path_index : ℕ → Bool → ℕ
path_index n is_hardened =
    if is_hardened then (n % 2 ^ 32 + hardened_offset) % 2 ^ 32 else n % 2 ^ 32

-- A round of the loop of `parsePath`.
unfoldable pub parse_part : Bytes → Option ℕ
unfolding strip_quote path_index
parse_part part =
    let (digits, is_hardened) = strip_quote part in
    elim (scan_uint digits) [ none ↦ none | some (n, rest) ↦ some (path_index n is_hardened) ]

unfoldable pub parse_parts : List Bytes → Option (List ℕ)
unfolding parse_part
parse_parts [] = some []
parse_parts (part ∷ parts) =
    let rest = parse_parts parts in
    elim (parse_part part) [
      | none ↦ none
      | some index ↦ elim rest [ none ↦ none | some is ↦ some (index ∷ is) ]
    ]

-- `path[2:]` behind "m/".
unfoldable pub strip_master : Bytes → Bytes
strip_master path = if bytes_equal (take 2 path) (codes "m/") then drop 2 path else path

-- `parsePath`
unfoldable pub parse_path : Bytes → Option (List ℕ)
unfolding parse_parts split_path strip_master
parse_path path = if is_empty path then none else parse_parts (split_path (strip_master path))

-- `DerivePath`
unfoldable pub derive_path : Curve → Digest → ExtendedKey → Bytes → Outcome (Option ExtendedKey)
unfolding parse_path derive_all
derive_path c dg ek path = elim (parse_path path) [
  | none ↦ returns none
  | some segments ↦ derive_all c dg ek segments
]
