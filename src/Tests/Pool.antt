-- ===== src/Tests/Pool.antt =====
-- The theorems on the mempool, at pools made from the sample transactions.
use earthion_blockchain_dev.Base.{
  [], ◌∷◌, none, some, Bool, false, Bytes, bytes_equal, Elem, ◌≡◌, ◌↔◌, refl,
}
use earthion_blockchain_dev.Base.Format.{hex_encode}
use earthion_blockchain_dev.Base.Map.{lookup, insert}
use earthion_blockchain_dev.Base.Outcome.{returns}
use earthion_blockchain_dev.Core.Platform.{toy_platform}
use earthion_blockchain_dev.Core.Mempool.{Mempool, new_mempool, add, sender_of, get_by_sender}
use earthion_blockchain_dev.Core.Mempool.Queries.{get_by_sender-Elem}
use earthion_blockchain_dev.Core.Mempool.Index.{
  Reachable, starts, steps, adds, IsSound, Reachable-IsSound,
}
use earthion_blockchain_dev.Core.Mempool.Conflicts.{get_conflicts, Conflicts, get_conflicts_iff}
use earthion_blockchain_dev.Core.Types.{TxInput, Transaction}
use earthion_blockchain_dev.Tests.Samples.{payment, payment_input, receipt}
use earthion_blockchain_dev.Core.Transaction.{is_coinbase, verify}

-- The pool that holds the payment.
abbrev pool : Mempool
pool = record {
  txs = (hex_encode (2 ∷ []), payment) ∷ [];
  by_sender = (hex_encode (6 ∷ []), hex_encode (2 ∷ []) ∷ []) ∷ [];
}

add_runs : add toy_platform (some payment) new_mempool ≡ returns (pool, none)
unfolding add new_mempool lookup is_coinbase verify insert
add_runs = refl

pool-Reachable : Reachable toy_platform pool
pool-Reachable = steps starts (adds (some payment) {r = none} add_runs)

Reachable-IsSound_example : IsSound toy_platform pool
Reachable-IsSound_example = Reachable-IsSound toy_platform pool-Reachable

-- A transaction that spends the output that the payment spends, too.
abbrev double_spend : Transaction
double_spend = record {
  id = 4 ∷ [];
  inputs = record payment_input { pub_key = 8 ∷ [] } ∷ [];
  outputs = [];
}

abbrev not_nil : TxInput → Bool
not_nil i = false

abbrev not_nil_existing : Bytes → TxInput → Bool
not_nil_existing k i = false

conflicts_run : get_conflicts not_nil not_nil_existing (λ txs. txs) double_spend pool ≡ payment ∷ []
unfolding get_conflicts bytes_equal
conflicts_run = refl

no_conflicts_run : get_conflicts not_nil not_nil_existing (λ txs. txs) receipt pool ≡ []
unfolding get_conflicts bytes_equal
no_conflicts_run = refl

get_conflicts_iff_example :
    Elem payment (get_conflicts not_nil not_nil_existing (λ txs. txs) double_spend pool) ↔ (
      (k : Bytes) × Elem (k, payment) pool.txs
      × Conflicts not_nil not_nil_existing payment double_spend.inputs k)
get_conflicts_iff_example =
    get_conflicts_iff not_nil not_nil_existing (λ txs. txs) payment double_spend pool
      (λ k. (λ e. e, λ e. e))

get_by_sender-Elem_example : Elem payment (get_by_sender (6 ∷ []) pool) ↔ (
    (k : Bytes) × (lookup k pool.txs ≡ some payment)
    × (sender_of payment ≡ some (hex_encode (6 ∷ []))))
get_by_sender-Elem_example = get_by_sender-Elem toy_platform pool (6 ∷ []) payment pool-Reachable
