-- ===== src/Hd/Derive.antt =====
-- Keys derived along paths.
use earthion_blockchain_dev.Base.{
  ℕ, ◌+◌, ◌%◌, ◌^◌, ◌<◌, List, [], ◌∷◌, ◌++◌, Option, none, some, true, length, All, ◌≡◌, refl, ◌∙◌,
  ap, arith,
}
use earthion_blockchain_dev.Base.Outcome.{Outcome, returns, panics}
use earthion_blockchain_dev.Crypto.Hash.{Digest}
use earthion_blockchain_dev.Hd.{Curve, ExtendedKey, child_key, derive_all}
use earthion_blockchain_dev.Hd.WellFormed.{IsKey, child_key-IsChild}
use earthion_blockchain_dev.Hd.Path.{derive_path}
use earthion_blockchain_dev.Hd.Path.RoundTrip.{path_text, parse_path-path_text}

module _ (c : Curve) (dg : Digest) where
  -- Deriving along a list of indices from a well-formed private key returns a well-formed private
  -- key, as many levels deeper as there are indices, modulo 256; the fingerprint stays the one of
  -- the first key.
  pub derive_all-IsKey :
      (ek : ExtendedKey) (indices : List ℕ)
      → IsKey ek
      → ek.is_private ≡ true
      → (child : ExtendedKey) × (derive_all c dg ek indices ≡ returns (some child))
        × IsKey child
        × (child.is_private ≡ true)
        × (child.parent_f ≡ ek.parent_f)
        × (child.depth ≡ (ek.depth + length indices) % 256)
  unfolding derive_all
  derive_all-IsKey ek [] h private = (ek, refl, h, private, refl, omega (arith, h.depth_byte))
  derive_all-IsKey ek (index ∷ indices) h private =
      let (child, e, made) = child_key-IsChild c dg ek index h private in
      let (last, f, k, still, parent, deep) =
        derive_all-IsKey child indices made.well_formed (made.same_kind ∙ private) in
      (
        last,
        rw (e, derive_all) f,
        k,
        still,
        parent ∙ made.same_parent,
        omega (arith, deep, made.deeper),
      )

  -- Deriving along two lists of indices, one after the other, is deriving along both at once.
  pub derive_all-append :
      (ek child : ExtendedKey) (is js : List ℕ)
      → derive_all c dg ek is ≡ returns (some child)
      → derive_all c dg ek (is ++ js) ≡ derive_all c dg child js
  unfolding derive_all
  derive_all-append ek child [] js e = ap (λ (k : ExtendedKey). derive_all c dg k js) (same e)
    where
      same : returns (some ek) ≡ returns (some child) → ek ≡ child
      same q = cc q
  derive_all-append ek child (index ∷ is) js e =
      go (λ first. derive_all-append first child is js) (child_key c dg ek index) refl
    where
      go :
          ((first : ExtendedKey)
            → derive_all c dg first is ≡ returns (some child)
            → derive_all c dg first (is ++ js) ≡ derive_all c dg child js)
          → (o : Outcome (Option ExtendedKey)) → child_key c dg ek index ≡ o
          → derive_all c dg ek (index ∷ is ++ js) ≡ derive_all c dg child js
      go rest panics q = absurd (cc (rw (q, derive_all) at e))
      go rest (returns none) q = absurd (cc (rw (q, derive_all) at e))
      go rest (returns (some first)) q = rw (q, derive_all) (rest first (rw (q, derive_all) at e))

  -- DerivePath along the usual text of a path of at least one index, all below 2^32, from a
  -- well-formed private key: it returns a well-formed private key, as many levels deeper as the
  -- path has indices, modulo 256, with the fingerprint of the key it starts from.
  pub derive_path-path_text :
      (ek : ExtendedKey) (i : ℕ) (is : List ℕ)
      → IsKey ek
      → ek.is_private ≡ true
      → All (λ k. k < 2 ^ 32) (i ∷ is)
      → (child : ExtendedKey) × (derive_path c dg ek (path_text (i ∷ is)) ≡ returns (some child))
        × IsKey child
        × (child.is_private ≡ true)
        × (child.parent_f ≡ ek.parent_f)
        × (child.depth ≡ (ek.depth + length (i ∷ is)) % 256)
  unfolding derive_path
  derive_path-path_text ek i is h private small =
      let (child, e, k, still, parent, deep) = derive_all-IsKey ek (i ∷ is) h private in
      (child, rw (parse_path-path_text i is small, derive_path) e, k, still, parent, deep)
