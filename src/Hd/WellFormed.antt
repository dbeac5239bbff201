-- ===== src/Hd/WellFormed.antt =====
-- Keys as NewMasterKey makes them and ChildKey keeps them.
use earthion_blockchain_dev.Base.{
  ℕ, zero, suc, ◌+◌, ◌-◌, ◌%◌, ◌≤◌, ◌<◌, [], ◌∷◌, ◌++◌, none, some, Bool, true, false, not, ◌&&◌,
  Bytes, codes, take, drop, length, leb, ltb, ◌≡◌, ◌⊎◌, refl, ◌∙◌, ap, arith, Bool-cases, inl, inr,
}
use earthion_blockchain_dev.Base.Outcome.{returns}
use earthion_blockchain_dev.Crypto.Hash.{Digest}
use earthion_blockchain_dev.Crypto.Base58.{number, number_bytes}
use earthion_blockchain_dev.Crypto.Base58.Checksum.{length-take}
use earthion_blockchain_dev.Core.Transaction.{is_empty}
use earthion_blockchain_dev.Hd.{
  Curve, ExtendedKey, hardened_offset, private_version, new_master_key, key_tail, public_key,
  child_data, child_key_bytes, uint32_to_bytes, parent_fingerprint, make_child, child_key,
}

-- The lengths that String and ParseExtendedKey rely on, and a private key behind a zero byte.
pub record IsKey (ek : ExtendedKey) : Type 0 where
  pub long_version : length ek.version ≡ 4
  pub long_parent : length ek.parent_f ≡ 4
  pub long_chain_code : length ek.chain_code ≡ 32
  pub long_key : length ek.key ≡ 33
  pub private_key : ek.is_private ≡ true → (rest : Bytes) × (ek.key ≡ 0 ∷ rest)
  pub depth_byte : ek.depth < 256

length-drop : (n : ℕ) (xs : Bytes) → length (drop n xs) ≡ length xs - n
length-drop zero xs = omega arith
length-drop (suc n) [] = omega arith
length-drop (suc n) (x ∷ xs) = length-drop n xs ∙ omega arith

module _ (c : Curve) where
  long_halves :
      (k d : Bytes)
      → (length (take 32 (c.hmac_sha512 k d)) ≡ 32) × (length (drop 32 (c.hmac_sha512 k d)) ≡ 32)
  long_halves k d =
      let all = c.length-hmac_sha512 k d in
      (
        length-take 32 (c.hmac_sha512 k d) (omega (arith, all)),
        length-drop 32 (c.hmac_sha512 k d) ∙ omega (arith, all),
      )

  -- NewMasterKey of a seed of 16 to 64 bytes makes a well-formed private key at depth 0.
  pub new_master_key-IsKey :
      (seed : Bytes)
      → 16 ≤ length seed
      → length seed ≤ 64
      → (ek : ExtendedKey) × (new_master_key c seed ≡ some ek)
        × IsKey ek
        × (ek.is_private ≡ true)
        × (ek.depth ≡ 0)
  unfolding new_master_key
  new_master_key-IsKey seed lo hi =
      let il = c.hmac_sha512 (codes "Bitcoin seed") seed in
      let (left, right) = long_halves (codes "Bitcoin seed") seed in
      let short : ltb (length seed) 16 ≡ false = ground arith in
      let long : ltb 64 (length seed) ≡ false = ground arith in
      (
        record {
          version = private_version;
          depth = 0;
          parent_f = 0 ∷ 0 ∷ 0 ∷ 0 ∷ [];
          child_num = 0;
          chain_code = drop 32 il;
          key = 0 ∷ take 32 il;
          is_private = true;
        },
        rw (new_master_key, short, long) refl,
        record {
          long_version = refl;
          long_parent = refl;
          long_chain_code = right;
          long_key = ap suc left;
          private_key = λ e. (take 32 il, refl);
          depth_byte = omega arith;
        },
        refl,
        refl,
      )

module _ (c : Curve) (dg : Digest) where
  -- What ChildKey makes: the version, the fingerprint and the kind of the parent, one level deeper.
  pub record IsChild (ek : ExtendedKey) (index : ℕ) (child : ExtendedKey) : Type 0 where
    pub well_formed : IsKey child
    pub same_version : child.version ≡ ek.version
    pub same_parent : child.parent_f ≡ ek.parent_f
    pub same_kind : child.is_private ≡ ek.is_private
    pub deeper : child.depth ≡ (ek.depth + 1) % 256
    pub numbered : child.child_num ≡ index
    pub code_of : (k : Bytes) × (d : Bytes) × (child.chain_code ≡ drop 32 (c.hmac_sha512 k d))
    pub key_of : ek.is_private ≡ true → (n : Bytes) × (child.key ≡ 0 ∷ c.priv_bytes n)

  same_fingerprint : (ek : ExtendedKey) → IsKey ek → parent_fingerprint c dg ek ≡ ek.parent_f
  same_fingerprint ek k = elim (Bool-cases (is_empty ek.parent_f)) [
    | inl empty ↦ absurd (no_bytes ek.parent_f empty k.long_parent)
    | inr some_bytes ↦ rw some_bytes refl
  ]
    where
      no_bytes : (b : Bytes) → is_empty b ≡ true → length b ≡ 4 → ⊥
      no_bytes [] e l = omega (arith, l)
      no_bytes (x ∷ b) e l = cc e

  make_child-IsChild :
      (ek : ExtendedKey) (index : ℕ) (k d key : Bytes)
      → IsKey ek
      → length key ≡ 33
      → (ek.is_private ≡ true → (n : Bytes) × (key ≡ 0 ∷ c.priv_bytes n))
      → IsChild ek index (make_child c dg ek index (drop 32 (c.hmac_sha512 k d)) key)
  make_child-IsChild ek index k d key h long behind = record {
    well_formed = record {
      long_version = h.long_version;
      long_parent = ap length (same_fingerprint ek h) ∙ h.long_parent;
      long_chain_code = (long_halves c k d).1;
      long_key = long;
      private_key = λ e. let (n, q) = behind e in (c.priv_bytes n, q);
      depth_byte = omega arith;
    };
    same_version = refl;
    same_parent = same_fingerprint ek h;
    same_kind = refl;
    deeper = refl;
    numbered = refl;
    code_of = (k, d, refl);
    key_of = behind;
  }

  pub key_tail-private :
      (ek : ExtendedKey) (rest : Bytes) → ek.key ≡ 0 ∷ rest → key_tail ek ≡ returns rest
  unfolding key_tail
  key_tail-private ek rest k = rw (k, key_tail) refl

  child_data-returns :
      (ek : ExtendedKey) (hardened : Bool) (rest : Bytes)
      → ek.is_private ≡ true
      → ek.key ≡ 0 ∷ rest
      → (parent : Bytes) × (child_data c ek hardened ≡ returns parent)
  unfolding child_data public_key
  child_data-returns ek true rest private k = (ek.key, refl)
  child_data-returns ek false rest private k =
      (c.pub_bytes rest, rw (private, key_tail-private ek rest k, child_data, public_key) refl)

  child_key_bytes-returns :
      (ek : ExtendedKey) (rest bytes : Bytes)
      → ek.is_private ≡ true
      → ek.key ≡ 0 ∷ rest
      → (n : Bytes) × (child_key_bytes c ek bytes ≡ returns (0 ∷ c.priv_bytes n))
  unfolding child_key_bytes
  child_key_bytes-returns ek rest bytes private k =
      let d = (c.priv_number rest + number 0 bytes) % c.order in
      (number_bytes d d [], rw (private, key_tail-private ek rest k, child_key_bytes) refl)

  child_key-eq :
      (ek : ExtendedKey) (index : ℕ) (parent key : Bytes)
      → (not ek.is_private && leb hardened_offset index) ≡ false
      → child_data c ek (leb hardened_offset index) ≡ returns parent
      → let il = c.hmac_sha512 ek.chain_code (parent ++ uint32_to_bytes index) in
        child_key_bytes c ek (take 32 il) ≡ returns key
        → child_key c dg ek index ≡ returns (some (make_child c dg ek index (drop 32 il) key))
  unfolding child_key
  child_key-eq ek index parent key allowed e f = rw (allowed, e, f, child_key) refl

  -- ChildKey of a well-formed private key, at every index, hardened or not: it returns a well-formed
  -- private key with that index, one level deeper modulo 256, and with the fingerprint of its
  -- parent's parent, which it does not compute anew.
  pub child_key-IsChild :
      (ek : ExtendedKey) (index : ℕ)
      → IsKey ek
      → ek.is_private ≡ true
      → (child : ExtendedKey) × (child_key c dg ek index ≡ returns (some child))
        × IsChild ek index child
  child_key-IsChild ek index h private =
      let (rest, k) = h.private_key private in
      let (parent, e) = child_data-returns ek (leb hardened_offset index) rest private k in
      let message = parent ++ uint32_to_bytes index in
      let (n, f) =
        child_key_bytes-returns ek rest (take 32 (c.hmac_sha512 ek.chain_code message)) private k in
      (
        make_child c dg ek index (drop 32 (c.hmac_sha512 ek.chain_code message))
            (0 ∷ c.priv_bytes n),
        child_key-eq ek index parent (0 ∷ c.priv_bytes n) (rw private refl) e f,
        make_child-IsChild ek index ek.chain_code message (0 ∷ c.priv_bytes n) h
            (ap suc (c.length-priv_bytes n)) (λ _. (n, refl)),
      )

  -- ChildKey of a well-formed public key: a hardened index is an
  -- error; at every other index it returns a well-formed public key with that index, one level
  -- deeper modulo 256.
  pub child_key_public :
      (ek : ExtendedKey) (index : ℕ)
      → IsKey ek
      → ek.is_private ≡ false
      → ((hardened_offset ≤ index) × (child_key c dg ek index ≡ returns none))
        ⊎ ((index < hardened_offset)
            × ((child : ExtendedKey) × (child_key c dg ek index ≡ returns (some child))
                × IsChild ek index child))
  unfolding child_key child_data child_key_bytes public_key
  child_key_public ek index h public = elim (Bool-cases (leb hardened_offset index)) [
    | inl hardened ↦ inl (ground arith, rw (public, hardened, child_key) refl)
    | inr normal ↦
        let message = ek.key ++ uint32_to_bytes index in
        let il = c.hmac_sha512 ek.chain_code message in
        inr (
          ground arith,
          (
            make_child c dg ek index (drop 32 il) (c.pub_bytes (take 32 il)),
            child_key-eq ek index ek.key (c.pub_bytes (take 32 il)) (rw (public, normal) refl)
                (rw (normal, public, child_data, public_key) refl)
                (rw (public, child_key_bytes) refl),
            make_child-IsChild ek index ek.chain_code message (c.pub_bytes (take 32 il)) h
                (c.length-pub_bytes (take 32 il)) (λ private. absurd (cc (private, public))),
          ),
        )
  ]
