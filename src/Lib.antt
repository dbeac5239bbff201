-- ===== src/Lib.antt =====
-- Verification library of the earthion blockchain: the packages crypto, core, wallet, storage, hd,
-- cli, cmd and cmd/server.
--
-- The program is a small blockchain node. crypto hashes, builds Merkle trees and encodes addresses;
-- core holds transactions, blocks, proof of work, the chain with its indices and its set of unspent outputs,
-- fork handling, validation, the mempool, fees and rewards; wallet keeps keys and signs; storage
-- writes the chain to a JSON file. A block is made by core on top of the chain's tip (AddBlock,
-- NewBlock), its transactions hashed by crypto; a payment is made from the unspent outputs of the
-- chain (NewTransaction) and signed by wallet; validation and the mempool check both. Two programs
-- run a node: cmd reads commands (cli), cmd/server answers requests of an HTTP API; both load the
-- wallet and the chain from their files when they start and save the chain when they stop. hd
-- derives keys along paths, and no other package calls it.
--
-- Where each part stands:
--   Base            lists, tests and integers; Int: Go's int and int64, with the wrap-around of
--                   each operation; Format: hex, %d and the keys "txid:index"; Scan: fmt.Sscanf;
--                   Decimal: %d read back; Map: Go's maps keyed by strings; Outcome: calls that may panic
--   Crypto          Hash (crypto/hash.go), Merkle (crypto/merkle.go), Base58 (crypto/base58.go)
--   Core            Types: the records; Platform: what the program calls and does not implement
--     Transaction   core/transaction.go, identifiers, signing data, Verify; Payment: Sign and
--                   NewTransaction; Json: the JSON forms
--     Pow, Block    core/pow.go, core/block.go
--     Chain, Utxo, Fork, Validate
--                   core/blockchain.go: the chain and its indices, UTXOIndex and GetBalance,
--                   orphans and reorganisation, Validate
--     Validation    core/validation.go
--     Mempool, Fee, Reward, Utils
--                   core/mempool.go, core/fee.go, core/reward.go, core/utils.go
--   Wallet          wallet/wallet.go; Files: its making and its files; Storage: storage/blockchain.go
--   Hd              hd/hd.go: keys and their children; Path: paths; Text: the texts
--   Server          cmd/server/main.go: Json, the JSON forms; Node, the state, requests and answers;
--                   Handlers; the other files prove
--   Cli             cli/cli.go: the commands and the loop; Program: main of cmd/main.go
--   Start           cmd/main.go and cmd/server/main.go: loading, initialize and the shutdown
--                   (Restart: the same chain; Loss, Process: starts that lose or reject it)
--   Tests           samples, and the theorems applied to them
-- A component's file has its definitions, one for each function of the source and one for each
-- loop, with the Go name in the comment above; the files below it prove what they are named for.
--
-- Conventions. A byte string is a list of numbers; nil and empty slices are one, but for
-- GetConflicts of the mempool, where a parameter tells them apart. A method that
-- changes its receiver returns the new state. The clock, the random bytes, the order in which a
-- map is visited and the success of a file's creation are arguments. SHA-256, encoding/gob,
-- encoding/json and btcec are fields of Digest, Platform and Json; a Platform is one process, as
-- encoding/gob numbers the types in the order in which a process first encodes them, and a theorem
-- on a restart has a second Platform for the process that starts; of SHA-256 the length of a result
-- is assumed, and that it holds bytes where a theorem says so. Pointers to transactions and
-- blocks inside a chain are not nil. Log lines are left out, but the slices that can panic in them are kept. HMAC-SHA-512 and the curve are fields of
-- Curve, encoding/gob on wallets those of WalletGob. The requests of the server and the commands are
-- answered one after another. Where a theorem mines, it assumes that some nonce meets the target. A
-- slice is its elements: spare capacity behind them is not modelled. Paths of keys are ASCII.
--
-- Bounds and fuel. The loop of Run has as many rounds as the source allows nonces; the loop that
-- builds a Merkle tree has one round for each hash, which is enough as each round at least halves
-- the level; the loops of Base58 divide a number by 58 or 256 and have the number itself as fuel;
-- GetTotalMined is modelled at heights below the largest int64, where its loop ends. The loop of the
-- command line has its rounds as a parameter: a result that says it goes on is told from one that
-- says it returned.
--
-- Not modelled: handlers that run at the same time (the source takes no lock around a node), what
-- net/http does with a handler that panicked (it goes on serving), the router, ports and
-- timeouts of the server and the encoding of its answers, the log lines and the layout of what the
-- command line prints, and the texts of errors.
pub mod Base
pub mod Crypto
pub mod Core
pub mod Wallet
pub mod Storage
pub mod Server
pub mod Start
pub mod Cli
pub mod Hd
mod Tests
