-- ===== src/Server/Reachable.antt =====
-- The requests of a server's life, from a fresh chain on.
use earthion_blockchain_dev.Base.{
  ◌^◌, ◌<◌, [], ◌∷◌, true, Bytes, length, ◌≡◌, refl, sym, ◌∙◌, ap, subst, Bool-cases, Option-cases,
  inl, inr,
}
use earthion_blockchain_dev.Base.Int.{ℤ, pos}
use earthion_blockchain_dev.Base.Format.{hex_decode}
use earthion_blockchain_dev.Base.Outcome.{Outcome, returns}
use earthion_blockchain_dev.Core.Platform.{Platform}
use earthion_blockchain_dev.Core.Pow.{validate_pow}
use earthion_blockchain_dev.Core.Block.{
  genesis_block, new_block, candidate, with_proof, block_merkle_root,
}
use earthion_blockchain_dev.Core.Block.Mined.{validate_pow-new_block}
use earthion_blockchain_dev.Core.Transaction.{is_empty}
use earthion_blockchain_dev.Core.Chain.{
  Disk, Blockchain, rebuild_index, new_blockchain, set_filename,
}
use earthion_blockchain_dev.Core.Chain.Index.{IsIndexed, rebuild_index-IsIndexed}
use earthion_blockchain_dev.Core.Chain.Search.{get_block-IsBlockAnswer}
use earthion_blockchain_dev.Core.Validate.{validate}
use earthion_blockchain_dev.Wallet.{Wallet, get_raw_address}
use earthion_blockchain_dev.Server.Node.{
  Node, Env, Request, Response, health, get_blocks, block_by_hash, block_at_index,
  get_wallet_address, balance_of, get_utxo, transaction_by_id, create_transaction, mine,
  validate_request, get_stats, cli, failure, status_bad_request, hash_required, invalid_hash_format,
  success, status_ok, valid_body,
}
use earthion_blockchain_dev.Server.Handlers.{
  handle_validate, handle_get_block_by_hash, keep, handle, answer_block,
}
use earthion_blockchain_dev.Server.Minted.{IsMintedChain, validate-IsMintedChain}
use earthion_blockchain_dev.Server.Answers.{Minable, IsSound, handle_mine-IsMinted, pushed}
use earthion_blockchain_dev.Server.Grown.{IsGrown, IsGrown-same, IsGrown-pushed}
use earthion_blockchain_dev.Server.Refusal.{handle_create_transaction_refuses}

-- The node of a new chain that is saved to a file.
unfoldable pub fresh_node : Platform → ℤ → Bytes → Wallet → Disk → Node
fresh_node p now filename w disk = record {
  chain = set_filename filename (new_blockchain p now);
  wallet = w;
  disk = disk;
}

-- The nodes that requests lead to, each request on a chain shorter than 2^62 blocks.
pub data Reachable (p : Platform) : Node → Type 0 where
  start :
      (now : ℤ) (filename : Bytes) (w : Wallet) (disk : Disk)
      → Reachable p (fresh_node p now filename w disk)
  step :
      {n n' : Node} (env : Env) (req : Request) (r : Response)
      → Reachable p n
      → length n.chain.blocks < 2 ^ 62
      → handle p env req n ≡ returns (n', r)
      → Reachable p n'

-- A request is answered, and puts at most one block on top of the chain.
abbrev pub IsAnswered : Platform → Env → Request → Node → Type 0
IsAnswered p env req n =
    (n' : Node) × (r : Response) × (handle p env req n ≡ returns (n', r)) × IsGrown p 1 n n'

validate_pow-genesis_block :
    (p : Platform) → Minable p → (now : ℤ) → validate_pow p (genesis_block p now) ≡ true
unfolding genesis_block
validate_pow-genesis_block p minable now =
    let (n, lt, w) = minable (candidate p now [] [] (pos 0) []) in
    validate_pow-new_block p now [] [] (pos 0) [] n lt w

pub IsMintedChain-new_blockchain :
    (p : Platform)
    → Minable p
    → (address : Bytes) (now : ℤ) → IsMintedChain p address (new_blockchain p now).blocks
unfolding new_blockchain rebuild_index genesis_block new_block candidate with_proof
    block_merkle_root
IsMintedChain-new_blockchain p minable address now = record {
  genesis = genesis_block p now;
  rest = [];
  whole = refl;
  first = refl;
  zero_index = refl;
  pays_none = refl;
  root_of_none = refl;
  first_proved = validate_pow-genesis_block p minable now;
  minted = tt;
}

IsIndexed-new_blockchain : (p : Platform) (now : ℤ) → IsIndexed (new_blockchain p now)
unfolding new_blockchain
IsIndexed-new_blockchain p now = rebuild_index-IsIndexed (record {
  blocks = genesis_block p now ∷ [];
  filename = [];
  orphaned = [];
  alt_chains = [];
  block_index = [];
  tx_index = [];
})

pub IsIndexed-set_filename :
    (filename : Bytes) (bc : Blockchain) → IsIndexed bc → IsIndexed (set_filename filename bc)
unfolding set_filename
IsIndexed-set_filename filename bc h = record {
  block_entries = h.block_entries;
  block_found = h.block_found;
  tx_entries = h.tx_entries;
  tx_found = h.tx_found;
}

pub IsSound-fresh_node :
    (p : Platform)
    → Minable p
    → (now : ℤ) (filename : Bytes) (w : Wallet) (disk : Disk)
    → IsSound p (fresh_node p now filename w disk)
unfolding fresh_node set_filename
IsSound-fresh_node p minable now filename w disk = record {
  minted = IsMintedChain-new_blockchain p minable (get_raw_address p w) now;
  indexed = IsIndexed-set_filename filename (new_blockchain p now) (IsIndexed-new_blockchain p now);
}

module _ (p : Platform) (minable : Minable p) (env : Env) where
  keep-IsAnswered :
      (req : Request) (n : Node) (o : Outcome Response)
      → handle p env req n ≡ keep p env n o
      → IsSound p n
      → ((r : Response) × (o ≡ returns r))
      → IsAnswered p env req n
  keep-IsAnswered req n o e sound (r, h) = (n, r, e ∙ ap (keep p env n) h, IsGrown-same p 1 n sound)

  handle_mine-IsAnswered :
      (n : Node) → length n.chain.blocks < 2 ^ 62 → IsSound p n → IsAnswered p env mine n
  unfolding handle
  handle_mine-IsAnswered n short sound =
      let (tip, b, l, m, _, e, sound') = handle_mine-IsMinted p minable env n short sound in
      (pushed p env b n, _, e, IsGrown-pushed p minable env n b sound')

  get_block-answered :
      (hash : Bytes) (n : Node)
      → IsSound p n
      → (r : Response) × (handle_get_block_by_hash hash n ≡ returns r)
  unfolding handle_get_block_by_hash
  get_block-answered hash n sound = elim (Bool-cases (is_empty hash)) [
    | inl empty ↦
        (failure status_bad_request hash_required, rw (empty, handle_get_block_by_hash) refl)
    | inr some_digits ↦ elim (Option-cases (hex_decode hash)) [
      | inl bad ↦ (
        failure status_bad_request invalid_hash_format,
        rw (some_digits, bad, handle_get_block_by_hash) refl,
      )
      | inr (bytes, good) ↦
          let (o, e, _) = get_block-IsBlockAnswer bytes n.chain sound.indexed in
          (answer_block o, rw (some_digits, good, e, handle_get_block_by_hash) refl)
    ]
  ]

  validate-answered :
      (n : Node) → IsSound p n → (r : Response) × (handle_validate p env n ≡ returns r)
  unfolding handle_validate
  validate-answered n sound = (
    success status_ok (valid_body true),
    rw
        (
          validate-IsMintedChain p (get_raw_address p n.wallet) n.chain.blocks sound.minted,
          handle_validate,
        )
        refl,
  )

  -- On a node whose chain is minted, whose indices are right and whose chain is shorter than 2^62
  -- blocks, if blocks can be mined, every request is answered: no handler panics. The request puts
  -- at most one block on top of the chain, and the chain is minted and its indices are right after
  -- it.
  pub handle-IsAnswered :
      (req : Request) (n : Node)
      → length n.chain.blocks < 2 ^ 62
      → IsSound p n
      → IsAnswered p env req n
  unfolding handle
  handle-IsAnswered health n short sound = (n, _, refl, IsGrown-same p 1 n sound)
  handle-IsAnswered get_blocks n short sound = (n, _, refl, IsGrown-same p 1 n sound)
  handle-IsAnswered (block_by_hash hash) n short sound =
      keep-IsAnswered (block_by_hash hash) n (handle_get_block_by_hash hash n) refl sound
        (get_block-answered hash n sound)
  handle-IsAnswered (block_at_index index) n short sound = (n, _, refl, IsGrown-same p 1 n sound)
  handle-IsAnswered get_wallet_address n short sound = (n, _, refl, IsGrown-same p 1 n sound)
  handle-IsAnswered (balance_of address) n short sound = (n, _, refl, IsGrown-same p 1 n sound)
  handle-IsAnswered get_utxo n short sound = (n, _, refl, IsGrown-same p 1 n sound)
  handle-IsAnswered (transaction_by_id txid) n short sound = (n, _, refl, IsGrown-same p 1 n sound)
  handle-IsAnswered (create_transaction body) n short sound =
      let (e, refused) = handle_create_transaction_refuses p env body n in
      (n, failure status_bad_request e, refused, IsGrown-same p 1 n sound)
  handle-IsAnswered mine n short sound = handle_mine-IsAnswered n short sound
  handle-IsAnswered validate_request n short sound =
      keep-IsAnswered validate_request n (handle_validate p env n) refl sound
        (validate-answered n sound)
  handle-IsAnswered get_stats n short sound = (n, _, refl, IsGrown-same p 1 n sound)
  handle-IsAnswered cli n short sound = (n, _, refl, IsGrown-same p 1 n sound)

module _ (p : Platform) (minable : Minable p) where
  pub Reachable-IsSound : {n : Node} → Reachable p n → IsSound p n
  Reachable-IsSound (start now filename w disk) = IsSound-fresh_node p minable now filename w disk
  Reachable-IsSound (step {n} {n'} env req r before short answered) =
      let (m, r', answered', done) =
        handle-IsAnswered p minable env req n short (Reachable-IsSound before) in
      let same : (m, r') ≡ (n', r) = returns_eq (sym answered' ∙ answered) in
      subst (IsSound p) (ap (λ (x : Node × Response). x.0) same) done.sound
    where
      returns_eq : {a b : Node × Response} → returns a ≡ returns b → a ≡ b
      returns_eq e = cc e

  -- If blocks can be mined, every node that requests lead to from a fresh chain has a chain that
  -- Validate accepts.
  pub Reachable-validate : {n : Node} → Reachable p n → validate p n.chain.blocks ≡ returns true
  Reachable-validate {n} reached =
      validate-IsMintedChain p (get_raw_address p n.wallet) n.chain.blocks
        (Reachable-IsSound reached).minted
