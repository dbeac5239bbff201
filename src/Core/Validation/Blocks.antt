-- ===== src/Core/Validation/Blocks.antt =====
-- What ValidateBlock and ValidateChain accept.
use earthion_blockchain_dev.Base.{
  ◌≤◌, List, [], ◌∷◌, Option, none, some, true, Bytes, bytes_equal_iff, length, ◌≡◌, ◌↔◌, inl, inr,
  refl, arith, All, Option-cases,
}
use earthion_blockchain_dev.Base.Int.{ℤ, pos, ◌≤ℤ◌, add64}
use earthion_blockchain_dev.Base.Outcome.{Outcome, returns, panics}
use earthion_blockchain_dev.Core.Types.{Transaction, Block}
use earthion_blockchain_dev.Core.Platform.{Platform}
use earthion_blockchain_dev.Core.Transaction.{is_coinbase, is_empty}
use earthion_blockchain_dev.Core.Pow.{validate_pow}
use earthion_blockchain_dev.Core.Validate.{merkle_root_matches}
use earthion_blockchain_dev.Core.Validation.{
  ValidationError, fail, ◌and_then◌, validate_transaction, validate_txs, validate_rest,
  validate_content, validate_link, validate_block, validate_blocks, validate_chain,
}

-- The first transaction is a coinbase.
abbrev pub StartsWithCoinbase : List Transaction → Type 0
StartsWithCoinbase [] = ⊥
StartsWithCoinbase (tx ∷ txs) = is_coinbase tx ≡ true

module _ (p : Platform) where
  -- A transaction that ValidateTransaction accepts.
  abbrev pub IsAccepted : Transaction → Type 0
  IsAccepted tx = validate_transaction p (some tx) (is_coinbase tx) ≡ none

  -- A block that stands for itself at Unix time `now`.
  pub record IsValid (now : ℤ) (b : Block) : Type 0 where
    pub numbered : pos 0 ≤ℤ b.index
    pub not_future : b.timestamp ≤ℤ add64 now (pos 120)
    pub dated : pos 0 ≤ℤ b.timestamp
    pub hard : (1 ≤ b.difficulty) × (b.difficulty ≤ 32)
    pub proved : validate_pow p b ≡ true
    pub merkle : merkle_root_matches p b ≡ true
    pub accepted : All IsAccepted b.transactions
    pub coinbase_first : StartsWithCoinbase b.transactions
    pub small : length (p.encode_block b) ≤ 1000000

  -- A chain in which every block links to the one before, and stands for itself.
  abbrev pub AllValid : ℤ → Block → List Block → Type 0
  AllValid now prev [] = Unit
  AllValid now prev (b ∷ bs) = (b.prev_hash ≡ prev.hash) × IsValid now b × AllValid now b bs

  validate_txs_iff : (txs : List Transaction) → (validate_txs p txs ≡ none) ↔ All IsAccepted txs
  unfolding validate_txs
  validate_txs_iff [] = (λ h. tt, λ h. refl)
  validate_txs_iff (tx ∷ txs) = ground (arith, validate_txs_iff txs)

  validate_rest_iff :
      (b : Block) (txs : List Transaction)
      → (validate_rest p b txs ≡ none)
        ↔ (StartsWithCoinbase txs × (length (p.encode_block b) ≤ 1000000))
  unfolding validate_rest
  validate_rest_iff b [] = (λ h. absurd (cc h), λ h. absurd h.0)
  validate_rest_iff b (tx ∷ txs) = ground arith

  loops_iff :
      (b : Block)
      → ((validate_txs p b.transactions and_then validate_rest p b b.transactions) ≡ none) ↔ (
          All IsAccepted b.transactions
          × StartsWithCoinbase b.transactions
          × (length (p.encode_block b) ≤ 1000000))
  loops_iff b = elim (Option-cases (validate_txs p b.transactions)) [
    | inl e ↦ rw e (
      λ h.
          let (c, d) = (validate_rest_iff b b.transactions).0 h in
          ((validate_txs_iff b.transactions).0 e, c, d),
      λ (a, c, d). (validate_rest_iff b b.transactions).1 (c, d),
    )
    | inr (x, e) ↦ (
      λ h. absurd (cc (rw (e, ◌and_then◌) at h)),
      λ h. absurd (cc ((validate_txs_iff b.transactions).1 h.0)),
    )
  ]

  validate_content-IsValid :
      (now : ℤ) (b : Block) → pos 0 ≤ℤ b.index → (validate_content p now b ≡ none) ↔ IsValid now b
  unfolding validate_content
  validate_content-IsValid now b h = (
    λ e. record {
      numbered = h;
      not_future = ground arith;
      dated = ground arith;
      hard = ground arith;
      proved = ground arith;
      merkle = ground arith;
      accepted = ground (arith, loops_iff b);
      coinbase_first = ground (arith, loops_iff b);
      small = ground (arith, loops_iff b);
    },
    λ v.
        let not_future = v.not_future in
        let dated = v.dated in
        let hard = v.hard in
        let proved = v.proved in
        let merkle = v.merkle in
        let rest = (loops_iff b).1 (v.accepted, v.coinbase_first, v.small) in ground arith,
  )

  validate_block-IsValid :
      (now : ℤ) (prev b : Block)
      → (validate_block p now (some b) (some prev) ≡ returns none)
        ↔ ((b.prev_hash ≡ prev.hash) × IsValid now b)
  unfolding validate_block validate_link
  validate_block-IsValid now prev b = (
    λ e. (
      ground (arith, bytes_equal_iff b.prev_hash prev.hash),
      ground (arith, validate_content-IsValid now b),
    ),
    λ (l, v).
        let linked = (bytes_equal_iff b.prev_hash prev.hash).1 l in
        let numbered = v.numbered in
        let content = (validate_content-IsValid now b numbered).1 v in ground arith,
  )

  round_iff :
      (first rest : Outcome (Option ValidationError))
      → ((elim first [
        | panics ↦ panics
        | returns (some e) ↦ returns (fail e.code [])
        | returns none ↦ rest
      ])
          ≡ returns none)
        ↔ ((first ≡ returns none) × (rest ≡ returns none))
  round_iff panics rest = (λ h. absurd (cc h), λ h. absurd (cc h.0))
  round_iff (returns none) rest = (λ h. (refl, h), λ h. h.1)
  round_iff (returns (some e)) rest = (λ h. absurd (cc h), λ h. absurd (cc h.0))

  validate_blocks-AllValid :
      (now : ℤ) (prev : Block) (bs : List Block)
      → (validate_blocks p now prev bs ≡ returns none) ↔ AllValid now prev bs
  unfolding validate_blocks
  validate_blocks-AllValid now prev [] = (λ e. tt, λ h. refl)
  validate_blocks-AllValid now prev (b ∷ bs) = (
    λ e.
        let (first, rest) = (round_iff (validate_block p now (some b) (some prev)) _).0 e in
        let (l, v) = (validate_block-IsValid now prev b).0 first in
        (l, v, (validate_blocks-AllValid now b bs).0 rest),
    λ (l, v, vs).
        (round_iff (validate_block p now (some b) (some prev)) _).1
          ((validate_block-IsValid now prev b).1 (l, v), (validate_blocks-AllValid now b bs).1 vs),
  )

  -- ValidateChain accepts a chain exactly if its genesis block has no previous hash and every later
  -- block links to the one before and is valid: its index and time are not negative, its time at
  -- most two minutes ahead, its difficulty from 1 to 32, its proof of work and its Merkle root
  -- right, its transactions accepted, the first of them a coinbase, its size at most a million
  -- bytes. The genesis block itself is not checked further.
  pub validate_chain_iff :
      (now : ℤ) (genesis : Block) (bs : List Block)
      → (validate_chain p now (genesis ∷ bs) ≡ returns none)
        ↔ ((genesis.prev_hash ≡ []) × AllValid now genesis bs)
  unfolding validate_chain
  validate_chain_iff now genesis bs =
      ground (arith, validate_blocks-AllValid now genesis bs, is_empty_iff genesis.prev_hash)
    where
      is_empty_iff : (xs : Bytes) → (is_empty xs ≡ true) ↔ (xs ≡ [])
      is_empty_iff [] = (λ h. refl, λ h. refl)
      is_empty_iff (x ∷ xs) = (λ h. absurd (cc h), λ h. absurd (cc h))
