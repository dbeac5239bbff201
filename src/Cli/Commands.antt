-- ===== src/Cli/Commands.antt =====
-- Each command on a node whose chain is minted and whose indices are right.
use earthion_blockchain_dev.Base.{
  ◌^◌, ◌<◌, true, Bytes, length, ◌==◌, ◌≡◌, refl, Bool-cases, Option-cases, inl, inr,
}
use earthion_blockchain_dev.Base.Int.{ℤ, pos, leb_ℤ, ltb_ℤ, ◌<ℤ◌}
use earthion_blockchain_dev.Base.Format.{hex_decode}
use earthion_blockchain_dev.Base.Scan.{atoi}
use earthion_blockchain_dev.Base.Outcome.{returns}
use earthion_blockchain_dev.Core.Platform.{Platform}
use earthion_blockchain_dev.Core.Utxo.{get_balance}
use earthion_blockchain_dev.Core.Payment.{insufficient_balance, no_valid_utxos, new_transaction}
use earthion_blockchain_dev.Core.Payment.Unspendable.{new_transaction_never_pays}
use earthion_blockchain_dev.Wallet.{get_raw_address}
use earthion_blockchain_dev.Server.Node.{Node, Env}
use earthion_blockchain_dev.Server.Minted.{validate-IsMintedChain}
use earthion_blockchain_dev.Server.Answers.{Minable, IsSound}
use earthion_blockchain_dev.Server.Grown.{IsGrown, IsGrown-same}
use earthion_blockchain_dev.Server.Refusal.{leb_ℤ-false}
use earthion_blockchain_dev.Cli.{
  Command, nothing, balance, send, send_usage, mine, validate_chain, list, help, exit, unknown,
  Output, address_length, address_not_hex, amount_not_integer, amount_not_positive,
  amount_too_large, payment_error, chain_valid, max_amount, send_payment, send_to, validate_node,
  execute,
}
use earthion_blockchain_dev.Cli.Sound.{mine_block-handle_mine}

module _ (p : Platform) (env : Env) where
  payment_refused :
      (to_hex to : Bytes) (amount : ℤ) (n : Node)
      → pos 0 <ℤ amount
      → (out : Output) × (send_payment p env to_hex amount
            (new_transaction p env.visit env.visit_again env.nonce n.wallet to amount
              n.chain.blocks)
            n
          ≡ returns (n, out))
  payment_refused to_hex to amount n positive =
      let never =
        new_transaction_never_pays p env.visit env.visit_again env.nonce n.wallet to amount
          n.chain.blocks positive in
      elim (Bool-cases
        (ltb_ℤ (get_balance env.visit (get_raw_address p n.wallet) n.chain.blocks) amount)) [
          | inl poor ↦ (payment_error insufficient_balance, rw (never, poor) refl)
          | inr rich ↦ (payment_error no_valid_utxos, rw (never, rich) refl)
        ]

  -- The command "send" never makes a payment: whatever its arguments, it returns, and the node
  -- stays as it is.
  pub send_to_refuses :
      (to_hex amount_str : Bytes) (n : Node)
      → (out : Output) × (send_to p env to_hex amount_str n ≡ returns (n, out))
  unfolding send_to
  send_to_refuses to_hex amount_str n = elim (Bool-cases (length to_hex == 40)) [
    | inr short ↦ (address_length, rw (short, send_to) refl)
    | inl long ↦ elim (Option-cases (hex_decode to_hex)) [
      | inl no_hex ↦ (address_not_hex, rw (long, no_hex, send_to) refl)
      | inr (to, hex) ↦ elim (Option-cases (atoi amount_str)) [
        | inl no_int ↦ (amount_not_integer, rw (long, hex, no_int, send_to) refl)
        | inr (amount, int) ↦ elim (Bool-cases (leb_ℤ amount (pos 0))) [
          | inl negative ↦ (amount_not_positive, rw (long, hex, int, negative, send_to) refl)
          | inr positive ↦ elim (Bool-cases (ltb_ℤ max_amount amount)) [
            | inl large ↦ (amount_too_large, rw (long, hex, int, positive, large, send_to) refl)
            | inr small ↦
                let (out, e) =
                  payment_refused to_hex to amount n (leb_ℤ-false amount (pos 0) positive) in
                (out, rw (long, hex, int, positive, small, send_to) e)
          ]
        ]
      ]
    ]
  ]

module _ (p : Platform) (minable : Minable p) where
  -- A command is executed, and puts at most one block on top of the chain.
  abbrev pub IsExecuted : Env → Command → Node → Type 0
  IsExecuted env cmd n =
      (n' : Node) × (out : Output) × (execute p env cmd n ≡ returns (n', out)) × IsGrown p 1 n n'

  pub execute-IsExecuted :
      (env : Env) (cmd : Command) (n : Node)
      → length n.chain.blocks < 2 ^ 62
      → IsSound p n
      → IsExecuted env cmd n
  unfolding execute validate_node
  execute-IsExecuted env nothing n short sound = (n, _, refl, IsGrown-same p 1 n sound)
  execute-IsExecuted env balance n short sound = (n, _, refl, IsGrown-same p 1 n sound)
  execute-IsExecuted env (send to amount) n short sound =
      let (out, e) = send_to_refuses p env to amount n in (n, out, e, IsGrown-same p 1 n sound)
  execute-IsExecuted env send_usage n short sound = (n, _, refl, IsGrown-same p 1 n sound)
  execute-IsExecuted env mine n short sound =
      let (n', r, out, _, e, grown) = mine_block-handle_mine p minable env n short sound in
      (n', out, e, grown)
  execute-IsExecuted env validate_chain n short sound =
      let valid =
        validate-IsMintedChain p (get_raw_address p n.wallet) n.chain.blocks sound.minted in
      (n, chain_valid true, rw (valid, execute, validate_node) refl, IsGrown-same p 1 n sound)
  execute-IsExecuted env list n short sound = (n, _, refl, IsGrown-same p 1 n sound)
  execute-IsExecuted env help n short sound = (n, _, refl, IsGrown-same p 1 n sound)
  execute-IsExecuted env exit n short sound = (n, _, refl, IsGrown-same p 1 n sound)
  execute-IsExecuted env unknown n short sound = (n, _, refl, IsGrown-same p 1 n sound)
