-- ===== src/Core/Pow/Mine.antt =====
-- Mining finds the first nonce that meets the target, if one is in reach; and the hash of a block
-- that passes the check.
use native.Mathlib.Decide.{dec_lt}
use earthion_blockchain_dev.Base.{
  ℕ, zero, suc, ◌+◌, ◌-◌, ◌^◌, ◌≤◌, ◌<◌, [], true, Bytes, bytes_equal, bytes_equal_iff, ◌≡◌, ◌≢◌,
  refl, sym, arith, Bool-cases, inl, inr,
}
use earthion_blockchain_dev.Base.Int.{pos}
use earthion_blockchain_dev.Crypto.Hash.{double_hash}
use earthion_blockchain_dev.Core.Types.{Block}
use earthion_blockchain_dev.Core.Platform.{Platform}
use earthion_blockchain_dev.Core.Pow.{
  pow_hash, prepare_data, meets_target, mine, run_pow, validate_pow,
}

module _ (p : Platform) (b : Block) where
  -- The nonce gives a hash below the target.
  abbrev pub Wins : ℕ → Type 0
  Wins n = meets_target p b (pow_hash p b (pos n)) ≡ true

  -- A nonce and its hash, the first from `start` on that wins.
  pub record IsFirstWin (start : ℕ) (r : ℕ × Bytes) : Type 0 where
    pub hashed : r.1 ≡ pow_hash p b (pos r.0)
    pub wins : Wins r.0
    pub first : (m : ℕ) → start ≤ m → m < r.0 → ¬ (Wins m)

  mine-IsFirstWin :
      (rounds nonce n : ℕ) (h : Bytes)
      → nonce ≤ n
      → n < nonce + rounds
      → Wins n
      → IsFirstWin nonce (mine p rounds b nonce h) × ((mine p rounds b nonce h).0 ≤ n)
  unfolding mine
  mine-IsFirstWin zero nonce n h lo hi w = absurd (omega arith)
  mine-IsFirstWin (suc rounds) nonce n h lo hi w =
      elim (Bool-cases (meets_target p b (pow_hash p b (pos nonce)))) [
        | inl won ↦
            rw (won, mine)
              (record { hashed = refl; wins = won; first = λ m le lt. absurd (omega arith) }, lo)
        | inr lost ↦
            let not_here : nonce ≢ n = λ e. cc (e, w, lost) in
            let ih =
              mine-IsFirstWin rounds (nonce + 1) n (pow_hash p b (pos nonce)) (omega arith)
                (omega arith) w in
            rw (lost, mine)
              (
                record {
                  hashed = ih.0.hashed;
                  wins = ih.0.wins;
                  first = λ m le lt. elim (dec_lt nonce m) [
                    | yes after ↦ ih.0.first m (omega arith) lt
                    | no before ↦ let here : m ≡ nonce = omega arith in λ won. cc (here, won, lost)
                  ];
                },
                ih.1,
              )
      ]

  -- If some nonce below math.MaxInt64 wins, Run stops at the first that does, and returns it with
  -- its hash.
  pub run_pow-IsFirstWin :
      (n : ℕ) → n < 2 ^ 63 - 1 → Wins n → IsFirstWin 0 (run_pow p b) × ((run_pow p b).0 ≤ n)
  unfolding run_pow
  run_pow-IsFirstWin n lt w = mine-IsFirstWin (2 ^ 63 - 1) 0 n [] (omega arith) (omega arith) w

  -- A block that passes the check of its proof of work carries the hash of its own data.
  pub hash-proved :
      validate_pow p b ≡ true → b.hash ≡ double_hash p.digest (prepare_data p b b.nonce)
  unfolding validate_pow pow_hash
  hash-proved h = elim (Bool-cases (bytes_equal (pow_hash p b b.nonce) b.hash)) [
    | inl same ↦ sym ((bytes_equal_iff (pow_hash p b b.nonce) b.hash).0 same)
    | inr other ↦ absurd (cc (rw (other, validate_pow) at h))
  ]
