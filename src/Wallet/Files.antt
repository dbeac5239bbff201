-- ===== src/Wallet/Files.antt =====
-- wallet/wallet.go, NewWallet, Save and LoadWallet. The key of the system's random source and the
-- encoder and decoder of encoding/gob are parameters.
use earthion_blockchain_dev.Base.{
  Option, none, some, Bool, true, false, Bytes, length, bytes_equal_refl, ◌==◌, if◌then◌else◌, ◌≡◌,
  refl,
}
use earthion_blockchain_dev.Base.Map.{lookup, insert, lookup-insert}
use earthion_blockchain_dev.Base.Outcome.{Outcome, returns, panics}
use earthion_blockchain_dev.Core.Platform.{Platform}
use earthion_blockchain_dev.Core.Chain.{Disk}
use earthion_blockchain_dev.Wallet.{Wallet}

-- encoding/gob on a wallet.
pub record WalletGob : Type 0 where
  pub encode : Wallet → Bytes
  pub decode : Bytes → Option Wallet

-- `NewWallet`, from what `btcec.NewPrivateKey` gives; `none` is its error. The second result of
-- `btcec.PrivKeyFromBytes` stands for the compressed public key; a nil pointer panics.
unfoldable pub new_wallet : Platform → Option Bytes → Outcome (Option Wallet)
new_wallet p none = returns none
new_wallet p (some key) = elim (p.priv_key_from_bytes key).1 [
  | none ↦ panics
  | some pub_key ↦ returns (some (record { private_key_bytes = key; public_key = pub_key }))
]

module _ (g : WalletGob) where
  -- `Save`: the disk after it, and whether there is no error.
  unfoldable pub save : Bool → Bytes → Wallet → Disk → Disk × Bool
  save can_create filename w disk =
      if can_create then (insert filename (g.encode w) disk, true) else (disk, false)

  -- The test of `LoadWallet` on the wallet that is decoded.
  unfoldable pub check_key : Wallet → Option Wallet
  check_key w = if length w.private_key_bytes == 32 then some w else none

  -- `LoadWallet`; `none` is an error.
  unfoldable pub load_wallet : Bytes → Disk → Option Wallet
  unfolding check_key
  load_wallet filename disk = elim (lookup filename disk) [
    | none ↦ none
    | some file ↦ elim (g.decode file) [ none ↦ none | some w ↦ check_key w ]
  ]

  -- What LoadWallet reads from the file that Save wrote is the wallet, whatever else is on the
  -- disk, if its private key has 32 bytes and encoding/gob decodes what it encoded.
  pub load_wallet-save :
      (w : Wallet) (filename : Bytes) (disk : Disk)
      → length w.private_key_bytes ≡ 32
      → g.decode (g.encode w) ≡ some w
      → load_wallet filename (save true filename w disk).0 ≡ some w
  unfolding load_wallet save check_key
  load_wallet-save w filename disk long decodes =
      rw
        (
          load_wallet,
          lookup-insert filename filename (g.encode w) disk,
          bytes_equal_refl filename,
          decodes,
          long,
        )
        refl
