-- ===== src/Core/Mempool.antt =====
-- core/mempool.go: the pool of pending transactions. The lock makes each operation one step.
-- RemoveExpired has an empty body.
pub mod Index
pub mod Queries
pub mod Conflicts
use earthion_blockchain_dev.Base.{
  ℕ, List, [], ◌∷◌, ◌++◌, Option, none, some, Bool, true, false, not, ◌&&◌, Bytes, bytes_equal,
  length, leb, if◌then◌else◌, is_some,
}
use earthion_blockchain_dev.Base.Int.{ℤ, pos, leb_ℤ}
use earthion_blockchain_dev.Base.Format.{hex_encode}
use earthion_blockchain_dev.Base.Map.{Map, lookup, insert, erase}
use earthion_blockchain_dev.Base.Outcome.{Outcome, returns, panics}
use earthion_blockchain_dev.Core.Types.{TxInput, TxOutput, Transaction}
use earthion_blockchain_dev.Core.Platform.{Platform}
use earthion_blockchain_dev.Core.Transaction.{is_coinbase, is_empty, verify}

abbrev pub max_mempool_size : ℕ
max_mempool_size = 1000

-- `Mempool`
pub record Mempool : Type 0 where
  pub txs : Map Transaction
  pub by_sender : Map (List Bytes)

-- `NewMempool`, and what `Clear` leaves.
unfoldable pub new_mempool : Mempool
new_mempool = record { txs = []; by_sender = [] }

unfoldable pub clear : Mempool → Mempool
unfolding new_mempool
clear m = new_mempool

-- The errors of `validateTx` and of `Add`.
pub data AddError : Type 0 where
  mempool_is_full : AddError
  already_in_mempool : AddError
  no_id : AddError
  no_inputs : AddError
  no_outputs : AddError
  value_not_positive : AddError
  invalid_signature : AddError

-- The loop of `validateTx` over the outputs.
pub all_positive : List TxOutput → Bool
all_positive [] = true
all_positive (o ∷ os) = if leb_ℤ o.value (pos 0) then false else all_positive os

-- `validateTx`, of a transaction that is not nil.
unfoldable pub validate_tx : Platform → Transaction → Option AddError
unfolding all_positive
validate_tx p tx =
    if is_empty tx.id
    then some no_id
    else if is_empty tx.inputs
    then some no_inputs
    else if is_empty tx.outputs
    then some no_outputs
    else if not (all_positive tx.outputs)
    then some value_not_positive
    else if not (is_coinbase tx) && not (verify p tx)
    then some invalid_signature
    else none

-- The sender under which a transaction is indexed: the key of the first input, in hex.
unfoldable pub sender_of : Transaction → Option Bytes
sender_of tx =
    if is_coinbase tx
    then none
    else elim tx.inputs [ [] ↦ none | i ∷ is ↦ some (hex_encode i.pub_key) ]

-- `m.bySender[sender]`
unfoldable pub ids_of : Bytes → Map (List Bytes) → List Bytes
ids_of sender m = elim (lookup sender m) [ none ↦ [] | some ids ↦ ids ]

-- `m.bySender[sender] = append(m.bySender[sender], txID)`, if there is a sender.
unfoldable pub index_id : Option Bytes → Bytes → Map (List Bytes) → Map (List Bytes)
unfolding ids_of
index_id none id m = m
index_id (some sender) id m = insert sender (ids_of sender m ++ id ∷ []) m

-- The end of `Add`.
unfoldable pub store_tx : Bytes → Transaction → Mempool → Mempool
unfolding sender_of index_id
store_tx txid tx m = record {
  txs = insert txid tx m.txs;
  by_sender = index_id (sender_of tx) txid m.by_sender;
}

-- `Add` behind the test of the size, of a transaction that is not nil.
unfoldable pub add_tx : Platform → Transaction → Mempool → Mempool × Option AddError
unfolding validate_tx store_tx
add_tx p tx m =
    if is_some (lookup (hex_encode tx.id) m.txs)
    then (m, some already_in_mempool)
    else elim (validate_tx p tx) [
      | some e ↦ (m, some e)
      | none ↦ (store_tx (hex_encode tx.id) tx m, none)
    ]

-- `Add`: the pool after it, and its error. A nil transaction panics, at its ID, if the pool is not
-- full.
unfoldable pub add : Platform → Option Transaction → Mempool → Outcome (Mempool × Option AddError)
unfolding add_tx
add p tx m =
    if leb max_mempool_size (length m.txs)
    then returns (m, some mempool_is_full)
    else elim tx [ none ↦ panics | some tx ↦ returns (add_tx p tx m) ]

-- The loop of `Remove`: the list without the first `key`.
pub drop_id : Bytes → List Bytes → List Bytes
drop_id key [] = []
drop_id key (id ∷ ids) = if bytes_equal id key then ids else id ∷ drop_id key ids

-- The removal from the index, if there is a sender.
unfoldable pub unindex_id : Option Bytes → Bytes → Map (List Bytes) → Map (List Bytes)
unfolding drop_id
unindex_id none key m = m
unindex_id (some sender) key m = elim (lookup sender m) [
  | none ↦ m
  | some ids ↦ insert sender (drop_id key ids) m
]

-- `Remove` of a transaction that is there.
unfoldable pub remove_tx : Bytes → Transaction → Mempool → Mempool
unfolding sender_of unindex_id
remove_tx key tx m = record {
  txs = erase key m.txs;
  by_sender = unindex_id (sender_of tx) key m.by_sender;
}

-- `Remove`
unfoldable pub remove : Bytes → Mempool → Mempool
unfolding remove_tx
remove txid m = elim (lookup (hex_encode txid) m.txs) [
  | none ↦ m
  | some tx ↦ remove_tx (hex_encode txid) tx m
]

-- `Get`, `Contains`, `Size`
unfoldable pub get : Bytes → Mempool → Option Transaction
get txid m = lookup (hex_encode txid) m.txs

unfoldable pub contains : Bytes → Mempool → Bool
contains txid m = is_some (lookup (hex_encode txid) m.txs)

unfoldable pub size : Mempool → ℕ
size m = length m.txs

-- The loop of `GetBySender`.
pub present : Map Transaction → List Bytes → List Transaction
present txs [] = []
present txs (id ∷ ids) = elim (lookup id txs) [
  | none ↦ present txs ids
  | some tx ↦ tx ∷ present txs ids
]

-- `GetBySender`
unfoldable pub get_by_sender : Bytes → Mempool → List Transaction
unfolding present ids_of
get_by_sender address m = present m.txs (ids_of (hex_encode address) m.by_sender)

-- `List`; `visit` is the order in which the entries of the map are visited.
unfoldable pub list : (Map Transaction → Map Transaction) → Mempool → List Transaction
list visit m = values (visit m.txs)
  where
    values : Map Transaction → List Transaction
    values [] = []
    values ((k, tx) ∷ rest) = tx ∷ values rest
