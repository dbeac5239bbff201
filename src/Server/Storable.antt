-- ===== src/Server/Storable.antt =====
-- The blocks of a minted chain can be stored: their byte strings hold bytes, and their hashes are
-- not empty.
use earthion_blockchain_dev.Base.{
  ℕ, suc, List, [], ◌∷◌, ◌++◌, true, Bytes, length, All, bytes_equal_iff, ◌≡◌, ◌≢◌, sym, ap, subst,
  arith,
}
use earthion_blockchain_dev.Base.Format.{IsByte}
use earthion_blockchain_dev.Crypto.Hash.{hash, double_hash, length-double_hash}
use earthion_blockchain_dev.Crypto.Merkle.{new_merkle_tree, root_hash}
use earthion_blockchain_dev.Core.Types.{Transaction, Block}
use earthion_blockchain_dev.Core.Platform.{Platform}
use earthion_blockchain_dev.Core.Pow.Mine.{hash-proved}
use earthion_blockchain_dev.Core.Pow.{validate_pow, prepare_data}
use earthion_blockchain_dev.Core.Transaction.{coinbase_tx, set_unique_id}
use earthion_blockchain_dev.Core.Block.{tx_hashes}
use earthion_blockchain_dev.Core.Validate.{merkle_root_matches}
use earthion_blockchain_dev.Core.Json.RoundTrip.{TxBytes}
use earthion_blockchain_dev.Storage.RoundTrip.{IsStorable}
use earthion_blockchain_dev.Wallet.{Wallet, get_raw_address}
use earthion_blockchain_dev.Wallet.Address.{All-take}
use earthion_blockchain_dev.Server.Minted.{IsMinted, AllMinted, IsMintedChain, reward_tx}

module _ (p : Platform) (bytes : (d : Bytes) → All IsByte (p.digest.sha256 d)) where
  double_hash-IsByte : (d : Bytes) → All IsByte (double_hash p.digest d)
  unfolding double_hash hash
  double_hash-IsByte d = bytes (p.digest.sha256 d)

  raw_address-IsByte : (w : Wallet) → All IsByte (get_raw_address p w)
  unfolding get_raw_address hash
  raw_address-IsByte w = All-take 20 (p.digest.sha256 w.public_key) (bytes w.public_key)

  hash-not_empty : (b : Block) → validate_pow p b ≡ true → b.hash ≢ []
  hash-not_empty b h empty =
      let long = length-double_hash p.digest (prepare_data p b b.nonce) in
      let none : length b.hash ≡ 0 = ap length empty in
      omega (arith, long, none, ap length (hash-proved p b h))

  hash-IsByte : (b : Block) → validate_pow p b ≡ true → All IsByte b.hash
  hash-IsByte b h =
      subst (All IsByte) (sym (hash-proved p b h)) (double_hash-IsByte (prepare_data p b b.nonce))

  reward_tx-TxBytes :
      (w : Wallet) (place : ℕ) (h : Bytes) → TxBytes (reward_tx p (get_raw_address p w) place h)
  unfolding coinbase_tx set_unique_id
  reward_tx-TxBytes w place h =
      (double_hash-IsByte _, ((tt, tt, raw_address-IsByte w), tt), (raw_address-IsByte w, tt))

  merkle-IsByte :
      (b : Block) (tx : Transaction)
      → merkle_root_matches p b ≡ true
      → b.transactions ≡ tx ∷ []
      → All IsByte b.merkle_root
  unfolding merkle_root_matches new_merkle_tree root_hash
  merkle-IsByte b tx h one =
      let tree = root_hash (new_merkle_tree p.digest (tx_hashes b.transactions)) in
      subst (All IsByte) (sym ((bytes_equal_iff b.merkle_root tree).0 h)) (
        subst (λ txs. All IsByte (root_hash (new_merkle_tree p.digest (tx_hashes txs)))) (sym one)
          (double_hash-IsByte (tx.id ++ tx.id)))

  IsMinted-IsStorable :
      (w : Wallet) (prev b : Block) (place : ℕ)
      → All IsByte prev.hash
      → IsMinted p (get_raw_address p w) prev place b
      → IsStorable b
  IsMinted-IsStorable w prev b place before m = record {
    hashed = hash-not_empty b m.proved;
    hash_bytes = hash-IsByte b m.proved;
    prev_hash_bytes = subst (All IsByte) (sym m.links) before;
    merkle_root_bytes = merkle-IsByte b _ m.merkle m.pays;
    tx_bytes = subst (All TxBytes) (sym m.pays) (reward_tx-TxBytes w place prev.hash, tt);
  }

  AllMinted-IsStorable :
      (w : Wallet) (prev : Block) (place : ℕ) (bs : List Block)
      → All IsByte prev.hash
      → AllMinted p (get_raw_address p w) prev place bs
      → All IsStorable bs
  AllMinted-IsStorable w prev place [] before h = tt
  AllMinted-IsStorable w prev place (b ∷ bs) before h =
      let s = IsMinted-IsStorable w prev b place before h.0 in
      (s, AllMinted-IsStorable w b (suc place) bs s.hash_bytes h.1)

  pub IsMintedChain-IsStorable :
      (w : Wallet) (blocks : List Block)
      → IsMintedChain p (get_raw_address p w) blocks
      → All IsStorable blocks
  IsMintedChain-IsStorable w blocks c =
      subst (All IsStorable) (sym c.whole)
        (genesis, AllMinted-IsStorable w c.genesis 1 c.rest genesis.hash_bytes c.minted)
    where
      genesis : IsStorable c.genesis
      genesis = record {
        hashed = hash-not_empty c.genesis c.first_proved;
        hash_bytes = hash-IsByte c.genesis c.first_proved;
        prev_hash_bytes = subst (All IsByte) (sym c.first) tt;
        merkle_root_bytes = subst (All IsByte) (sym c.root_of_none) (double_hash-IsByte []);
        tx_bytes = subst (All TxBytes) (sym c.pays_none) tt;
      }
