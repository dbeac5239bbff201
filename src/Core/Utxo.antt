-- ===== src/Core/Utxo.antt =====
-- core/blockchain.go, UTXOIndex and GetBalance: the unspent outputs of a chain.
pub mod Unspent
pub mod Balance
use earthion_blockchain_dev.Base.{
  ℕ, zero, suc, ◌+◌, List, [], ◌∷◌, ◌++◌, Option, none, some, Bool, true, false, not, ◌&&◌, ◌||◌,
  Bytes, bytes_equal, if◌then◌else◌,
}
use earthion_blockchain_dev.Base.Int.{ℤ, pos, minus_one, eqb_ℤ, add64}
use earthion_blockchain_dev.Base.Format.{outpoint_key}
use earthion_blockchain_dev.Base.Map.{Map, insert, erase}
use earthion_blockchain_dev.Core.Types.{TxInput, TxOutput, Transaction, Block}

-- The loop over the outputs of one transaction, from index `i`.
unfoldable pub add_outputs : Bytes → List TxOutput → ℕ → Map TxOutput → Map TxOutput
add_outputs txid [] i utxos = utxos
add_outputs txid (o ∷ os) i utxos =
    add_outputs txid os (suc i) (insert (outpoint_key txid (pos i)) o utxos)

-- The loop over its inputs.
unfoldable pub remove_spent : List TxInput → Map TxOutput → Map TxOutput
remove_spent [] utxos = utxos
remove_spent (i ∷ is) utxos =
    remove_spent is
      (if eqb_ℤ i.out_index minus_one then utxos else erase (outpoint_key i.txid i.out_index) utxos)

-- The two loops for one transaction.
unfoldable pub apply_tx : Map TxOutput → Transaction → Map TxOutput
unfolding add_outputs remove_spent
apply_tx utxos tx = remove_spent tx.inputs (add_outputs tx.id tx.outputs 0 utxos)

unfoldable pub apply_txs : Map TxOutput → List Transaction → Map TxOutput
unfolding apply_tx
apply_txs utxos [] = utxos
apply_txs utxos (tx ∷ txs) = apply_txs (apply_tx utxos tx) txs

unfoldable pub apply_blocks : Map TxOutput → List Block → Map TxOutput
unfolding apply_txs
apply_blocks utxos [] = utxos
apply_blocks utxos (b ∷ bs) = apply_blocks (apply_txs utxos b.transactions) bs

-- `UTXOIndex`
unfoldable pub utxo_index : List Block → Map TxOutput
unfolding apply_blocks
utxo_index blocks = apply_blocks [] blocks

-- The loop of `GetBalance` over the entries, in the order in which the map is visited.
pub add_balance : Bytes → Map TxOutput → ℤ → ℤ
add_balance address [] balance = balance
add_balance address ((k, o) ∷ utxos) balance =
    add_balance address utxos
      (if bytes_equal o.pub_key address then add64 balance o.value else balance)

-- `GetBalance`; `visit` is the order in which the entries of the map are visited.
unfoldable pub get_balance : (Map TxOutput → Map TxOutput) → Bytes → List Block → ℤ
unfolding add_balance
get_balance visit address blocks = add_balance address (visit (utxo_index blocks)) (pos 0)
