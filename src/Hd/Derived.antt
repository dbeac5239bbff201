-- ===== src/Hd/Derived.antt =====
-- Keys from a seed, along a path, to a text and back.
use earthion_blockchain_dev.Base.{
  ℕ, zero, suc, ◌%◌, ◌^◌, ◌≤◌, ◌<◌, List, [], ◌∷◌, some, true, false, Bytes, codes, drop, length,
  All, ◌≡◌, refl, sym, subst, ◌∙◌, arith, ltb,
}
use earthion_blockchain_dev.Base.Format.{IsByte}
use earthion_blockchain_dev.Base.Outcome.{returns}
use earthion_blockchain_dev.Crypto.Hash.{Digest}
use earthion_blockchain_dev.Wallet.Address.{All-take}
use earthion_blockchain_dev.Hd.{Curve, ExtendedKey, new_master_key, derive_all}
use earthion_blockchain_dev.Hd.WellFormed.{IsKey, IsChild, new_master_key-IsKey, child_key-IsChild}
use earthion_blockchain_dev.Hd.Path.{derive_path}
use earthion_blockchain_dev.Hd.Path.RoundTrip.{path_text, parse_path-path_text}
use earthion_blockchain_dev.Hd.Derive.{derive_all-IsKey}
use earthion_blockchain_dev.Hd.Text.{byte_at, string, parse_extended_key}
use earthion_blockchain_dev.Hd.Text.RoundTrip.{IsPlain, parse_extended_key-string}

All-drop : (n : ℕ) (bs : Bytes) → All IsByte bs → All IsByte (drop n bs)
All-drop zero bs h = h
All-drop (suc n) [] h = h
All-drop (suc n) (b ∷ bs) h = All-drop n bs (h.1)

of_some : {a b : ExtendedKey} → some a ≡ some b → IsPlain a → IsPlain b
of_some e plain = subst IsPlain (cc e) plain

module _ (c : Curve) (dg : Digest) (hmac_bytes : (k d : Bytes) → All IsByte (c.hmac_sha512 k d))
    (priv_bytes : (n : Bytes) → All IsByte (c.priv_bytes n)) where
  new_master_key-IsPlain :
      (seed : Bytes) (ek : ExtendedKey)
      → 16 ≤ length seed
      → length seed ≤ 64
      → new_master_key c seed ≡ some ek
      → IsPlain ek
  unfolding new_master_key byte_at
  new_master_key-IsPlain seed ek lo hi e =
      let il = c.hmac_sha512 (codes "Bitcoin seed") seed in
      let bytes = hmac_bytes (codes "Bitcoin seed") seed in
      let short : ltb (length seed) 16 ≡ false = ground arith in
      let long : ltb 64 (length seed) ≡ false = ground arith in
      of_some (rw (short, long, new_master_key) at e) (record {
        version_bytes = ground arith;
        parent_bytes = ground arith;
        code_bytes = All-drop 32 il bytes;
        key_bytes = (omega arith, All-take 32 il bytes);
        number_uint32 = omega arith;
        kind = refl;
      })

  child-IsPlain :
      (ek : ExtendedKey) (index : ℕ) (child : ExtendedKey)
      → IsChild c dg ek index child
      → ek.is_private ≡ true
      → IsPlain ek
      → index < 2 ^ 32
      → IsPlain child
  unfolding byte_at
  child-IsPlain ek index child made private plain small =
      let (k, d, code) = made.code_of in
      let (n, key) = made.key_of private in
      record {
        version_bytes = subst (All IsByte) (sym made.same_version) plain.version_bytes;
        parent_bytes = subst (All IsByte) (sym made.same_parent) plain.parent_bytes;
        code_bytes = subst (All IsByte) (sym code) (All-drop 32 _ (hmac_bytes k d));
        key_bytes = subst (All IsByte) (sym key) (omega arith, priv_bytes n);
        number_uint32 = omega (arith, made.numbered);
        kind = rw key (made.same_kind ∙ private);
      }

  derive_all-IsPlain :
      (ek child : ExtendedKey) (indices : List ℕ)
      → IsKey ek
      → ek.is_private ≡ true
      → IsPlain ek
      → All (λ k. k < 2 ^ 32) indices
      → derive_all c dg ek indices ≡ returns (some child)
      → IsPlain child
  unfolding derive_all
  derive_all-IsPlain ek child [] h private plain small e = subst IsPlain (cc e) plain
  derive_all-IsPlain ek child (index ∷ indices) h private plain small e =
      let (first, f, made) = child_key-IsChild c dg ek index h private in
      derive_all-IsPlain first child indices made.well_formed (made.same_kind ∙ private)
        (child-IsPlain ek index first made private plain small.0) small.1 (rw (f, derive_all) at e)

  -- From a seed of 16 to 64 bytes NewMasterKey makes a key. Along the usual text of a path of at
  -- least one index, all below 2^32, DerivePath returns a private key from it, as many levels deep
  -- as the path has indices, modulo 256; String returns the text of that key, and
  -- ParseExtendedKey of that text is the key again, if HMAC-SHA-512, SHA-256 and Serialize give
  -- bytes.
  pub derive_path-string :
      ((d : Bytes) → All IsByte (dg.sha256 d))
      → (seed : Bytes) (i : ℕ) (is : List ℕ) → 16 ≤ length seed
      → length seed ≤ 64
      → All (λ k. k < 2 ^ 32) (i ∷ is)
      → (master : ExtendedKey) × (child : ExtendedKey) × (text : Bytes) × (new_master_key c seed
          ≡ some master)
        × (derive_path c dg master (path_text (i ∷ is)) ≡ returns (some child))
        × (child.is_private ≡ true)
        × (child.depth ≡ length (i ∷ is) % 256)
        × (string dg child ≡ returns text)
        × (parse_extended_key dg text ≡ some child)
  unfolding derive_path
  derive_path-string bytes seed i is lo hi small =
      let (master, e, key, private, top) = new_master_key-IsKey c seed lo hi in
      let plain = new_master_key-IsPlain seed master lo hi e in
      let (child, f, key', private', _, deep) = derive_all-IsKey c dg master (i ∷ is) key private in
      let plain' = derive_all-IsPlain master child (i ∷ is) key private plain small f in
      let (text, written, read) = parse_extended_key-string dg bytes child key' plain' in
      (
        master,
        child,
        text,
        e,
        rw (parse_path-path_text i is small, derive_path) f,
        private',
        omega (arith, deep, top),
        written,
        read,
      )
