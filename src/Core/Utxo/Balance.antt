-- ===== src/Core/Utxo/Balance.antt =====
-- What GetBalance returns, and that it does not depend on the order of Go's map iteration.
use mathlib.Core.List.{Perm, Permᴰ}
use mathlib.Core.Logic.{∥∥₁_elim}
use earthion_blockchain_dev.Base.{
  List, [], ◌∷◌, Bytes, bytes_equal, if◌then◌else◌, ◌≡◌, refl, sym, ap, ap₂, ◌∙◌, arith, Bool-cases,
  inl, inr,
}
use earthion_blockchain_dev.Base.Int.{
  ℤ, pos, negsuc, ◌+ℤ◌, wrap64, wrap64-IsInt64, add64, IsInt64, wrap64_fits, +ℤ_zero, zero-+ℤ,
  +ℤ_assoc, +ℤ_left_comm, ℤ-set,
}
use earthion_blockchain_dev.Base.Map.{Map}
use earthion_blockchain_dev.Core.Types.{TxOutput, Block}
use earthion_blockchain_dev.Core.Utxo.{add_balance, get_balance, utxo_index}

abbrev pub owned_value : Bytes → Bytes × TxOutput → ℤ
owned_value address (k, o) = if bytes_equal o.pub_key address then o.value else pos 0

-- The true sum of the values that belong to an address.
abbrev pub owned : Bytes → Map TxOutput → ℤ
owned address [] = pos 0
owned address (e ∷ m) = owned_value address e +ℤ owned address m

pub wrap64-add : (a b : ℤ) → wrap64 (wrap64 a +ℤ b) ≡ wrap64 (a +ℤ b)
unfolding wrap64 ◌+ℤ◌
wrap64-add (pos a) (pos b) = ground arith
wrap64-add (pos a) (negsuc b) = ground arith
wrap64-add (negsuc a) (pos b) = ground arith
wrap64-add (negsuc a) (negsuc b) = ground arith

add_balance-eq :
    (address : Bytes) (m : Map TxOutput) (acc : ℤ)
    → IsInt64 acc
    → add_balance address m acc ≡ wrap64 (acc +ℤ owned address m)
unfolding add_balance add64
add_balance-eq address [] acc h = sym (wrap64_fits acc h) ∙ ap wrap64 (sym (+ℤ_zero acc))
add_balance-eq address ((k, o) ∷ m) acc h = elim (Bool-cases (bytes_equal o.pub_key address)) [
  | inl mine ↦ rw mine (
      add_balance-eq address m (wrap64 (acc +ℤ o.value)) (wrap64-IsInt64 (acc +ℤ o.value))
      ∙ wrap64-add (acc +ℤ o.value) (owned address m)
      ∙ ap wrap64 (+ℤ_assoc acc o.value (owned address m)))
  | inr other ↦ rw (other, zero-+ℤ) (add_balance-eq address m acc h)
]

owned-Permᴰ : (address : Bytes) {m n : Map TxOutput} → Permᴰ m n → owned address m ≡ owned address n
owned-Permᴰ address Permᴰ.nil = refl
owned-Permᴰ address (Permᴰ.cons e r) = ap₂ ◌+ℤ◌ (ap (owned_value address) e) (owned-Permᴰ address r)
owned-Permᴰ address (Permᴰ.swap {a = a} {b = b} {l = l} e f) =
    +ℤ_left_comm (owned_value address a) (owned_value address b) (owned address l)
    ∙ ap₂ ◌+ℤ◌ (ap (owned_value address) f)
        (ap (λ (x : Bytes × TxOutput). owned_value address x +ℤ owned address l) e)
owned-Permᴰ address (Permᴰ.trans r t) = owned-Permᴰ address r ∙ owned-Permᴰ address t

-- GetBalance is the sum of the values of the unspent outputs of the address, reduced to an int64,
-- in whatever order the map of unspent outputs is visited.
pub get_balance-eq :
    (visit : Map TxOutput → Map TxOutput) (address : Bytes) (blocks : List Block)
    → Perm (visit (utxo_index blocks)) (utxo_index blocks)
    → get_balance visit address blocks ≡ wrap64 (owned address (utxo_index blocks))
unfolding get_balance
get_balance-eq visit address blocks h =
    add_balance-eq address (visit (utxo_index blocks)) (pos 0) (omega arith)
    ∙ ap wrap64 (zero-+ℤ _ ∙ ∥∥₁_elim h (ℤ-set _ _) (owned-Permᴰ address))
