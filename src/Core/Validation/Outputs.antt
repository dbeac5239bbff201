-- ===== src/Core/Validation/Outputs.antt =====
-- What ValidateUTXO accepts.
use earthion_blockchain_dev.Base.{
  List, [], ◌∷◌, none, Bool, true, Bytes, bytes_equal_iff, ◌≡◌, ◌↔◌, refl, arith, All,
}
use earthion_blockchain_dev.Base.Int.{pos, ◌<ℤ◌}
use earthion_blockchain_dev.Base.Map.{Map, lookup, insert, lookup-insert, IsMap}
use earthion_blockchain_dev.Core.Types.{TxOutput, Block}
use earthion_blockchain_dev.Core.Utxo.{utxo_index}
use earthion_blockchain_dev.Core.Validation.{duplicate_key, negative_value, validate_utxo}

-- No key of the entries has been seen.
abbrev Fresh : Map Bool → Map TxOutput → Type 0
Fresh seen m = All (λ (e : Bytes × TxOutput). lookup e.0 seen ≡ none) m

Fresh-insert :
    (k : Bytes) (seen : Map Bool) (m : Map TxOutput)
    → lookup k m ≡ none
    → Fresh seen m
    → Fresh (insert k true seen) m
unfolding lookup
Fresh-insert k seen [] absent h = tt
Fresh-insert k seen ((j, o) ∷ m) absent h = (
  ground (arith, lookup-insert k j true seen, bytes_equal_iff k j, bytes_equal_iff j k),
  Fresh-insert k seen m (ground arith) h.1,
)

duplicate_key-none :
    (m : Map TxOutput) (seen : Map Bool) → IsMap m → Fresh seen m → duplicate_key m seen ≡ none
unfolding duplicate_key IsMap
duplicate_key-none [] seen distinct h = refl
duplicate_key-none ((k, o) ∷ m) seen distinct h =
    rw (duplicate_key, h.0)
      (duplicate_key-none m (insert k true seen) distinct.1 (Fresh-insert k seen m distinct.0 h.1))

none_seen : (m : Map TxOutput) → Fresh [] m
unfolding lookup
none_seen [] = tt
none_seen (e ∷ m) = (refl, none_seen m)

-- The entry's value is positive.
abbrev pub IsPositive : Bytes × TxOutput → Type 0
IsPositive (k, o) = pos 0 <ℤ o.value

negative_value-none : (m : Map TxOutput) → (negative_value m ≡ none) ↔ All IsPositive m
unfolding negative_value
negative_value-none [] = (λ h. tt, λ h. refl)
negative_value-none ((k, o) ∷ m) = ground (arith, negative_value-none m)

-- If the map is visited with each key at most once, ValidateUTXO accepts a chain exactly if all the
-- entries that it visits have positive values: its test for duplicates never fails.
pub validate_utxo_iff :
    (visit : Map TxOutput → Map TxOutput) (blocks : List Block)
    → IsMap (visit (utxo_index blocks))
    → (validate_utxo visit blocks ≡ none) ↔ All IsPositive (visit (utxo_index blocks))
unfolding validate_utxo
validate_utxo_iff visit blocks distinct =
    let m = visit (utxo_index blocks) in
    rw (duplicate_key-none m [] distinct (none_seen m)) (negative_value-none m)
