-- ===== src/Cli/Program.antt =====
-- cmd/main.go: a whole run of the program, and the next one.
use earthion_blockchain_dev.Base.{
  ℕ, suc, ◌+◌, ◌^◌, ◌<◌, List, ◌∷◌, ◌++◌, map, none, some, Bool, true, Bytes, length, All, ◌≡◌, ◌≢◌,
  refl, sym, ◌∙◌, ap, subst,
}
use earthion_blockchain_dev.Base.Format.{IsByte}
use earthion_blockchain_dev.Base.Map.{lookup}
use earthion_blockchain_dev.Base.Outcome.{Outcome, returns, panics}
use earthion_blockchain_dev.Core.Platform.{Platform}
use earthion_blockchain_dev.Core.Chain.{Disk}
use earthion_blockchain_dev.Core.Chain.Index.{IsIndexed}
use earthion_blockchain_dev.Storage.{Json, block_to_json}
use earthion_blockchain_dev.Wallet.Files.{WalletGob}
use earthion_blockchain_dev.Server.Node.{Node}
use earthion_blockchain_dev.Server.Answers.{Minable, IsSound}
use earthion_blockchain_dev.Server.Grown.{IsGrown}
use earthion_blockchain_dev.Start.{Boot, wallet_file, chain_file, initialize, shutdown}
use earthion_blockchain_dev.Start.Restart.{initialize-shutdown}
use earthion_blockchain_dev.Cli.{exit, command_of, Progress, exited, going_on, Line, run}
use earthion_blockchain_dev.Cli.Session.{NoExit, run-returns}

-- How a run of the program stands: it has ended with an error, or with the disk it leaves, or it
-- goes on.
pub data Ending : Type 0 where
  failed : Ending
  ended : Node → Disk → Ending
  running : Node → Ending

module _ (p : Platform) (g : WalletGob) (j : Json) where
  -- The end of `main`, behind Run.
  abbrev pub save_on_exit : Bool → Outcome Progress → Outcome Ending
  save_on_exit can_create panics = panics
  save_on_exit can_create (returns (exited n)) = returns (ended n (shutdown j can_create n))
  save_on_exit can_create (returns (going_on n)) = returns (running n)

  -- `main` of cmd/main.go, for a number of rounds of Run.
  unfoldable pub main : Boot → Bool → ℕ → List Line → Disk → Outcome Ending
  unfolding shutdown
  main boot can_create rounds lines disk = elim (initialize p g j boot disk) [
    | panics ↦ panics
    | returns none ↦ returns failed
    | returns (some n) ↦ save_on_exit can_create (run p rounds lines n)
  ]

  pub main-eq :
      (boot : Boot) (rounds : ℕ) (lines : List Line) (disk : Disk) (n n' : Node)
      → initialize p g j boot disk ≡ returns (some n)
      → run p rounds lines n ≡ returns (exited n')
      → main boot true rounds lines disk ≡ returns (ended n' (shutdown j true n'))
  unfolding main
  main-eq boot rounds lines disk n n' started done = rw (started, main, done) refl

  ended_node :
      {m m' : Node} {left left' : Disk}
      → returns (ended m left) ≡ returns (ended m' left')
      → (m ≡ m') × (left ≡ left')
  ended_node e = (cc e, cc e)

  -- A run of the program, and the next start, which is another process and may encode transactions
  -- in another way. The run starts on a node whose chain is minted, as this process encodes
  -- transactions, and whose indices are right, reads commands and then "exit", can create the
  -- chain's file, and ends at a node and a disk. If blocks can be mined, the chain stays shorter
  -- than 2^62 blocks, SHA-256 gives bytes, encoding/json decodes what it encoded of the blocks, and
  -- the wallet's file holds the wallet with a key of 32 bytes: the chain of the first start has
  -- grown by at most one block for each command, and the next start has all its blocks, the chain's
  -- file, the same wallet, and right indices.
  pub main-initialize :
      (p' : Platform)
      → Minable p
      → (boot boot' : Boot) (before after : List Line) (line : Line) (k : ℕ) (disk left : Disk)
        (n m : Node) (file : Bytes)
      → initialize p g j boot disk ≡ returns (some n)
      → IsSound p n
      → n.chain.filename ≡ chain_file
      → NoExit before
      → command_of line.fields ≡ exit
      → length n.chain.blocks + length before < 2 ^ 62
      → main boot true (suc (length before) + k) (before ++ line ∷ after) disk
        ≡ returns (ended m left)
      → ((d : Bytes) → All IsByte (p.digest.sha256 d))
      → lookup wallet_file n.disk ≡ some file
      → g.decode file ≡ some n.wallet
      → length n.wallet.private_key_bytes ≡ 32
      → j.decode (j.encode (map block_to_json m.chain.blocks))
        ≡ some (map block_to_json m.chain.blocks)
      → IsGrown p (length before) n m
        × ((n' : Node) × (initialize p' g j boot' left ≡ returns (some n'))
            × (n'.chain.blocks ≡ m.chain.blocks)
            × (n'.chain.filename ≡ chain_file)
            × (n'.wallet ≡ n.wallet)
            × IsIndexed n'.chain)
  main-initialize p' minable boot boot' before after line k disk left n m file started sound name
        no_exit ends short over bytes here decodes long json =
      let (m', done, grown') =
        run-returns p minable before after line k n no_exit ends short sound in
      let (same, same_disk) = ended_node (
        sym (main-eq boot (suc (length before) + k) (before ++ line ∷ after) disk n m' started done)
        ∙ over) in
      let grown = subst (IsGrown p (length before) n) same grown' in
      let same_file : lookup wallet_file m.disk ≡ some file =
        grown.other_files wallet_file (λ e. names_differ (e ∙ name)) ∙ here in
      let (n', back, blocks, named, wallet, indexed) =
        initialize-shutdown g j p p' boot' m file grown.sound bytes same_file
          (decodes ∙ ap some (sym grown.same_wallet))
          (ap (λ w. length w.private_key_bytes) grown.same_wallet ∙ long) json in
      (
        grown,
        (
          n',
          ap (initialize p' g j boot') (sym same_disk ∙ ap (shutdown j true) same) ∙ back,
          blocks,
          named,
          wallet ∙ grown.same_wallet,
          indexed,
        ),
      )
    where
      names_differ : wallet_file ≢ chain_file
      names_differ = λ e. cc e
