-- ===== src/Core/Block/Mined.antt =====
-- A new block passes the check of its proof of work.
use earthion_blockchain_dev.Base.{ℕ, ◌-◌, ◌^◌, ◌<◌, List, Bytes, true, ◌≡◌, refl, bytes_equal_refl}
use earthion_blockchain_dev.Base.Int.{ℤ}
use earthion_blockchain_dev.Core.Types.{Transaction, Block}
use earthion_blockchain_dev.Core.Platform.{Platform}
use earthion_blockchain_dev.Core.Pow.{run_pow, validate_pow, pow_hash, meets_target}
use earthion_blockchain_dev.Core.Pow.Mine.{Wins, IsFirstWin, run_pow-IsFirstWin}
use earthion_blockchain_dev.Core.Block.{candidate, with_proof, new_block}

module _ (p : Platform) where
  -- The hash that is mined covers neither the nonce field nor the hash field.
  pow_hash-with_proof :
      (b : Block) (r : ℕ × Bytes) (n : ℤ) → pow_hash p (with_proof p b r) n ≡ pow_hash p b n
  unfolding with_proof pow_hash
  pow_hash-with_proof b r n = refl

  meets_target-with_proof :
      (b : Block) (r : ℕ × Bytes) (h : Bytes)
      → meets_target p (with_proof p b r) h ≡ meets_target p b h
  unfolding with_proof meets_target
  meets_target-with_proof b r h = refl

  validate_pow-with_proof :
      (b : Block) (r : ℕ × Bytes) → IsFirstWin p b 0 r → validate_pow p (with_proof p b r) ≡ true
  unfolding validate_pow
  validate_pow-with_proof b r w =
      rw (pow_hash-with_proof b r, meets_target-with_proof b r)
        (unfold with_proof in rw (← w.hashed, bytes_equal_refl r.1, w.hashed) w.wins)

  -- A block that NewBlock makes passes ProofOfWork.Validate, if some nonce below math.MaxInt64
  -- gives it a hash below its target.
  pub validate_pow-new_block :
      (now : ℤ) (txs : List Transaction) (prev_hash : Bytes) (index : ℤ) (prev_blocks : List Block)
      (n : ℕ)
      → n < 2 ^ 63 - 1
      → Wins p (candidate p now txs prev_hash index prev_blocks) n
      → validate_pow p (new_block p now txs prev_hash index prev_blocks) ≡ true
  unfolding new_block
  validate_pow-new_block now txs prev_hash index prev_blocks n lt w =
      let b = candidate p now txs prev_hash index prev_blocks in
      validate_pow-with_proof b (run_pow p b) (run_pow-IsFirstWin p b n lt w).0
