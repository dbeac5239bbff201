-- ===== src/Start.antt =====
-- How the programs start and stop: initialize and the shutdown of cmd/server/main.go, and main with
-- loadOrCreateWallet and loadOrCreateBlockchain of cmd/main.go, which do the same. Log lines are
-- not modelled; `log.Fatalf` and `os.Exit(1)` are `none`.
pub mod Restart
pub mod Loss
pub mod Process
use earthion_blockchain_dev.Base.{Option, none, some, Bool, true, false, Bytes, codes}
use earthion_blockchain_dev.Base.Int.{ℤ}
use earthion_blockchain_dev.Base.Outcome.{Outcome, returns, panics}
use earthion_blockchain_dev.Core.Platform.{Platform}
use earthion_blockchain_dev.Core.Chain.{Blockchain, Disk, new_blockchain, set_filename}
use earthion_blockchain_dev.Wallet.{Wallet}
use earthion_blockchain_dev.Wallet.Files.{WalletGob, new_wallet, save, load_wallet}
use earthion_blockchain_dev.Storage.{Json, load_blockchain, save_blockchain}
use earthion_blockchain_dev.Server.Node.{Node}

-- `WalletFile`, `ChainFile`
abbrev pub wallet_file : Bytes
wallet_file = codes "wallet.dat"

abbrev pub chain_file : Bytes
chain_file = codes "blockchain.dat"

-- What a start reads from outside: the clock at the two calls of NewBlockchain, the key of the
-- random source, and whether the wallet's file can be created.
pub record Boot : Type 0 where
  pub load_now : ℤ
  pub new_now : ℤ
  pub private_key : Option Bytes
  pub can_create_wallet : Bool

module _ (p : Platform) (g : WalletGob) (j : Json) (boot : Boot) where
  -- A new wallet, saved to its file.
  abbrev pub keep_wallet : Outcome (Option Wallet) → Disk → Outcome (Option (Wallet × Disk))
  keep_wallet panics disk = panics
  keep_wallet (returns none) disk = returns none
  keep_wallet (returns (some w)) disk =
      let (disk', ok) = save g boot.can_create_wallet wallet_file w disk in
      elim ok [ true ↦ returns (some (w, disk')) | false ↦ returns none ]

  -- `loadOrCreateWallet`, and the first half of `initialize`
  unfoldable pub load_or_create_wallet : Disk → Outcome (Option (Wallet × Disk))
  unfolding save
  load_or_create_wallet disk = elim (load_wallet g wallet_file disk) [
    | some w ↦ returns (some (w, disk))
    | none ↦ keep_wallet (new_wallet p boot.private_key) disk
  ]

  -- `loadOrCreateBlockchain`, and the second half of `initialize`
  unfoldable pub load_or_create_blockchain : Disk → Blockchain
  load_or_create_blockchain disk =
      set_filename chain_file (elim (load_blockchain j p boot.load_now chain_file disk) [
        | none ↦ new_blockchain p boot.new_now
        | some bc ↦ bc
      ])

  -- `initialize`, and `main` of cmd/main.go up to the call of Run
  unfoldable pub initialize : Disk → Outcome (Option Node)
  unfolding load_or_create_blockchain
  initialize disk = elim (load_or_create_wallet disk) [
    | panics ↦ panics
    | returns none ↦ returns none
    | returns (some (w, disk')) ↦
        returns
          (some (record { chain = load_or_create_blockchain disk'; wallet = w; disk = disk' }))
  ]

-- The save on SIGINT or SIGTERM, and the one at the end of `main` of cmd/main.go: the disk that is
-- left.
unfoldable pub shutdown : Json → Bool → Node → Disk
shutdown j can_create n = (save_blockchain j can_create n.chain chain_file n.disk).0
