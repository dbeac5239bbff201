-- ===== src/Cli.antt =====
-- cli/cli.go: the commands on a node. A line of input is given as the fields that strings.Fields
-- takes it apart into; what is printed is a value. The slices of the printed hashes are kept, as
-- they can panic.
pub mod Sound
pub mod Commands
pub mod Session
pub mod Program
use earthion_blockchain_dev.Base.{
  ℕ, zero, suc, List, [], ◌∷◌, Option, none, some, Bool, true, false, Bytes, bytes_equal, codes,
  take, length, leb, ◌==◌, if◌then◌else◌,
}
use earthion_blockchain_dev.Base.Int.{ℤ, pos, leb_ℤ, ltb_ℤ}
use earthion_blockchain_dev.Base.Format.{hex_encode, hex_decode}
use earthion_blockchain_dev.Base.Scan.{atoi}
use earthion_blockchain_dev.Base.Outcome.{Outcome, returns, panics}
use earthion_blockchain_dev.Core.Types.{TxOutput, Transaction, Block}
use earthion_blockchain_dev.Core.Platform.{Platform}
use earthion_blockchain_dev.Core.Transaction.{is_empty}
use earthion_blockchain_dev.Core.Utxo.{get_balance}
use earthion_blockchain_dev.Core.Validate.{validate}
use earthion_blockchain_dev.Core.Payment.{Payment, paid, new_transaction}
use earthion_blockchain_dev.Wallet.{get_raw_address}
use earthion_blockchain_dev.Server.Node.{Node, Env}
use earthion_blockchain_dev.Server.Handlers.{append_block, mining_reward}

-- The cases of the switch of `Run`.
pub data Command : Type 0 where
  nothing : Command
  balance : Command
  send : Bytes → Bytes → Command
  send_usage : Command
  mine : Command
  validate_chain : Command
  list : Command
  help : Command
  exit : Command
  unknown : Command

-- The arguments of "send".
abbrev pub send_command : List Bytes → Command
send_command (to ∷ amount ∷ rest) = send to amount
send_command _ = send_usage

-- The switch of `Run` on the fields of a line.
unfoldable pub command_of : List Bytes → Command
command_of [] = nothing
command_of (cmd ∷ args) =
    if bytes_equal cmd (codes "balance")
    then balance
    else if bytes_equal cmd (codes "send")
    then send_command args
    else if bytes_equal cmd (codes "mine")
    then mine
    else if bytes_equal cmd (codes "validate")
    then validate_chain
    else if bytes_equal cmd (codes "list")
    then list
    else if bytes_equal cmd (codes "help")
    then help
    else if bytes_equal cmd (codes "exit")
    then exit
    else unknown

-- A line that `mine` prints for a transaction: the start of its ID, the value and the start of the
-- key of its first output.
pub record TxLine : Type 0 where
  pub tx_id : Bytes
  pub val : ℤ
  pub pubk : Bytes

-- What `listBlocks` prints for a block.
pub record BlockLine : Type 0 where
  pub index : ℤ
  pub hash_hex : Bytes
  pub prev_hash_hex : Bytes
  pub tx_count : ℕ

-- What a command prints.
pub data Output : Type 0 where
  no_output : Output
  balance_is : ℤ → Output
  usage : Output
  address_length : Output
  address_not_hex : Output
  amount_not_integer : Output
  amount_not_positive : Output
  amount_too_large : Output
  payment_error : Payment → Output
  sent : ℤ → Bytes → Bytes → Output
  mined : Bytes → List (List TxLine) → Output
  chain_valid : Bool → Output
  block_lines : List BlockLine → Output
  commands : Output
  unknown_command : Output

-- `b[:n]`
unfoldable pub prefix : ℕ → Bytes → Outcome Bytes
prefix n b = if leb n (length b) then returns (take n b) else panics

abbrev pub after_prefix {ℓ} : {A : Type ℓ} → Outcome Bytes → (Bytes → Outcome A) → Outcome A
after_prefix panics f = panics
after_prefix (returns b) f = f b

-- `val` and `pubk` of `mine`.
unfoldable pub first_output : List TxOutput → Outcome (ℤ × Bytes)
unfolding prefix
first_output [] = returns (pos 0, [])
first_output (o ∷ os) = after_prefix (prefix 8 o.pub_key) λ key. returns (o.value, hex_encode key)

-- The round of the inner loop of `mine`.
unfoldable pub tx_line : Transaction → Outcome TxLine
unfolding prefix first_output
tx_line tx = elim (first_output tx.outputs) [
  | panics ↦ panics
  | returns (val, pubk) ↦
      after_prefix (prefix 16 (hex_encode tx.id))
        λ id. returns (record { tx_id = id; val = val; pubk = pubk })
]

unfoldable pub tx_lines : List Transaction → Outcome (List TxLine)
unfolding tx_line
tx_lines [] = returns []
tx_lines (tx ∷ txs) =
    let rest = tx_lines txs in
    elim (tx_line tx) [
      | panics ↦ panics
      | returns l ↦ elim rest [ panics ↦ panics | returns ls ↦ returns (l ∷ ls) ]
    ]

-- The outer loop of `mine`.
unfoldable pub chain_lines : List Block → Outcome (List (List TxLine))
unfolding tx_lines
chain_lines [] = returns []
chain_lines (b ∷ bs) =
    let rest = chain_lines bs in
    elim (tx_lines b.transactions) [
      | panics ↦ panics
      | returns l ↦ elim rest [ panics ↦ panics | returns ls ↦ returns (l ∷ ls) ]
    ]

-- `hashHex` and `prevHashHex` of `listBlocks`.
unfoldable pub safe_hex : Bytes → Bytes
safe_hex h = if is_empty h then codes "(empty)" else hex_encode (take 16 h)

-- `listBlocks`
unfoldable pub list_blocks : List Block → List BlockLine
unfolding safe_hex
list_blocks [] = []
list_blocks (b ∷ bs) =
    record {
      index = b.index;
      hash_hex = safe_hex b.hash;
      prev_hash_hex = safe_hex b.prev_hash;
      tx_count = length b.transactions;
    }
    ∷ list_blocks bs

abbrev pub max_amount : ℤ
max_amount = pos 1000000000

module _ (p : Platform) (env : Env) where
  -- `send` behind the call of NewTransaction.
  abbrev pub send_payment : Bytes → ℤ → Payment → Node → Outcome (Node × Output)
  send_payment to_hex amount (paid tx) n = elim (append_block p env (tx ∷ []) n) [
    | panics ↦ panics
    | returns n' ↦
        after_prefix (prefix 16 (hex_encode tx.id))
          λ id. after_prefix (prefix 16 to_hex) λ to. returns (n', sent amount to id)
  ]
  send_payment to_hex amount e n = returns (n, payment_error e)

  -- `send`
  unfoldable pub send_to : Bytes → Bytes → Node → Outcome (Node × Output)
  unfolding prefix
  send_to to_hex amount_str n =
      if length to_hex == 40
      then elim (hex_decode to_hex) [
        | none ↦ returns (n, address_not_hex)
        | some to ↦ elim (atoi amount_str) [
          | none ↦ returns (n, amount_not_integer)
          | some amount ↦
              if leb_ℤ amount (pos 0)
              then returns (n, amount_not_positive)
              else if ltb_ℤ max_amount amount
              then returns (n, amount_too_large)
              else send_payment to_hex amount
                  (new_transaction p env.visit env.visit_again env.nonce n.wallet to amount
                    n.chain.blocks)
                  n
        ]
      ]
      else returns (n, address_length)

  -- What `mine` prints after the block is added.
  unfoldable pub report_mined : Bytes → Node → Outcome (Node × Output)
  unfolding chain_lines
  report_mined id n = elim (chain_lines n.chain.blocks) [
    | panics ↦ panics
    | returns lines ↦ returns (n, mined id lines)
  ]

  -- `mine`
  unfoldable pub mine_block : Node → Outcome (Node × Output)
  unfolding report_mined prefix
  mine_block n =
      let coinbase = mining_reward p env n in
      after_prefix (prefix 8 coinbase.id) λ id. elim (append_block p env (coinbase ∷ []) n) [
        | panics ↦ panics
        | returns n' ↦ report_mined coinbase.id n'
      ]

  -- `validate`
  unfoldable pub validate_node : Node → Outcome (Node × Output)
  validate_node n = elim (validate p n.chain.blocks) [
    | panics ↦ panics
    | returns valid ↦ returns (n, chain_valid valid)
  ]

  -- A round of `Run` with a command that does not end it.
  unfoldable pub execute : Command → Node → Outcome (Node × Output)
  unfolding send_to mine_block validate_node list_blocks
  execute balance n =
      returns (n, balance_is (get_balance env.visit (get_raw_address p n.wallet) n.chain.blocks))
  execute (send to amount) n = send_to to amount n
  execute send_usage n = returns (n, usage)
  execute mine n = mine_block n
  execute validate_chain n = validate_node n
  execute list n = returns (n, block_lines (list_blocks n.chain.blocks))
  execute help n = returns (n, commands)
  execute unknown n = returns (n, unknown_command)
  execute nothing n = returns (n, no_output)
  execute exit n = returns (n, no_output)

-- Where `Run` stands after some rounds: it has returned, or it goes on.
pub data Progress : Type 0 where
  exited : Node → Progress
  going_on : Node → Progress

-- A line of input, with what the round reads from outside.
pub record Line : Type 0 where
  pub fields : List Bytes
  pub env : Env

module _ (p : Platform) where
  -- A round of `Run` with a command, and the rounds behind it.
  abbrev pub after_command : Command → Env → Node → (Node → Outcome Progress) → Outcome Progress
  after_command exit env n rest = returns (exited n)
  after_command cmd env n rest = elim (execute p env cmd n) [
    | panics ↦ panics
    | returns (n', _) ↦ rest n'
  ]

  -- The loop of `Run`, for a number of rounds. At the end of the input `prompt` returns "", as the
  -- result of Scan is not tested: no fields.
  unfoldable pub run : ℕ → List Line → Node → Outcome Progress
  unfolding command_of execute
  run zero lines n = returns (going_on n)
  run (suc rounds) [] n = run rounds [] n
  run (suc rounds) (line ∷ lines) n =
      after_command (command_of line.fields) line.env n (λ n'. run rounds lines n')
