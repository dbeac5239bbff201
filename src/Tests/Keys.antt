-- ===== src/Tests/Keys.antt =====
-- The theorems on hierarchical keys, at a sample curve.
use earthion_blockchain_dev.Base.{
  ◌+◌, ◌%◌, [], ◌∷◌, ◌++◌, replicate, none, some, true, false, Bytes, length, ◌≤◌, ◌<◌, ◌⊎◌, ◌≡◌,
  refl, arith,
}
use earthion_blockchain_dev.Base.Outcome.{returns}
use earthion_blockchain_dev.Crypto.Hash.{byte_sum, toy_digest}
use earthion_blockchain_dev.Hd.{
  Curve, ExtendedKey, private_version, hardened_offset, new_master_key, public_version, child_key,
}
use earthion_blockchain_dev.Hd.WellFormed.{IsKey, IsChild, child_key_public}
use earthion_blockchain_dev.Hd.Path.{derive_path}
use earthion_blockchain_dev.Hd.Path.RoundTrip.{path_text}
use earthion_blockchain_dev.Hd.Derive.{derive_path-path_text}
use earthion_blockchain_dev.Hd.Text.{byte_at, string, parse_extended_key}
use earthion_blockchain_dev.Hd.Text.RoundTrip.{IsPlain, parse_extended_key-string}
use earthion_blockchain_dev.Hd.Derived.{derive_path-string}
use earthion_blockchain_dev.Tests.Toy.{padded_sum-IsByte, toy_sha256-IsByte}

abbrev toy_curve : Curve
toy_curve = record {
  hmac_sha512 = λ k d. replicate 63 0 ++ byte_sum (k ++ d) ∷ [];
  length-hmac_sha512 = λ k d. refl;
  order = 251;
  priv_bytes = λ k. replicate 31 0 ++ byte_sum k ∷ [];
  length-priv_bytes = λ k. refl;
  priv_number = λ k. byte_sum k;
  pub_bytes = λ k. 2 ∷ (replicate 31 0 ++ byte_sum k ∷ []);
  length-pub_bytes = λ k. refl;
  ecdsa_sign = λ k d. some (k ++ d);
}

abbrev master : ExtendedKey
master = record {
  version = private_version;
  depth = 0;
  parent_f = replicate 4 0;
  child_num = 0;
  chain_code = replicate 32 5;
  key = 0 ∷ replicate 32 6;
  is_private = true;
}

master-IsKey : IsKey master
master-IsKey = record {
  long_version = refl;
  long_parent = refl;
  long_chain_code = refl;
  long_key = refl;
  private_key = λ e. (replicate 32 6, refl);
  depth_byte = omega arith;
}

master-IsPlain : IsPlain master
unfolding byte_at
master-IsPlain = record {
  version_bytes = ground arith;
  parent_bytes = ground arith;
  code_bytes = ground arith;
  key_bytes = ground arith;
  number_uint32 = omega arith;
  kind = refl;
}

parse_extended_key-string_example :
    (text : Bytes) × (string toy_digest master ≡ returns text)
    × (parse_extended_key toy_digest text ≡ some master)
parse_extended_key-string_example =
    parse_extended_key-string toy_digest toy_sha256-IsByte master master-IsKey master-IsPlain

-- The path m/44'/0, of a seed of 16 bytes.
derive_path-string_example :
    (root : ExtendedKey) × (child : ExtendedKey) × (text : Bytes) × (new_master_key toy_curve
        (replicate 16 1)
      ≡ some root)
    × (derive_path toy_curve toy_digest root (path_text ((hardened_offset + 44) ∷ 0 ∷ []))
        ≡ returns (some child))
    × (child.is_private ≡ true)
    × (child.depth ≡ length ((hardened_offset + 44) ∷ 0 ∷ []) % 256)
    × (string toy_digest child ≡ returns text)
    × (parse_extended_key toy_digest text ≡ some child)
derive_path-string_example =
    derive_path-string toy_curve toy_digest (λ k d. padded_sum-IsByte 63 (k ++ d))
      (λ n. padded_sum-IsByte 31 n) toy_sha256-IsByte (replicate 16 1) (hardened_offset + 44)
      (0 ∷ []) (omega arith) (omega arith) (omega arith, (omega arith, tt))

derive_path-path_text_example :
    (child : ExtendedKey) × (derive_path toy_curve toy_digest master
        (path_text ((hardened_offset + 44) ∷ 0 ∷ []))
      ≡ returns (some child))
    × IsKey child
    × (child.is_private ≡ true)
    × (child.parent_f ≡ master.parent_f)
    × (child.depth ≡ (master.depth + length ((hardened_offset + 44) ∷ 0 ∷ [])) % 256)
derive_path-path_text_example =
    derive_path-path_text toy_curve toy_digest master (hardened_offset + 44) (0 ∷ []) master-IsKey
      refl (omega arith, (omega arith, tt))

-- A public key.
abbrev public_master : ExtendedKey
public_master = record master {
  version = public_version;
  key = 2 ∷ replicate 32 6;
  is_private = false;
}

public_master-IsKey : IsKey public_master
public_master-IsKey = record {
  long_version = refl;
  long_parent = refl;
  long_chain_code = refl;
  long_key = refl;
  private_key = λ e. absurd (cc e);
  depth_byte = omega arith;
}

child_key_public_example :
    ((hardened_offset ≤ 5) × (child_key toy_curve toy_digest public_master 5 ≡ returns none))
    ⊎ ((5 < hardened_offset)
        × ((child : ExtendedKey) × (child_key toy_curve toy_digest public_master 5
              ≡ returns (some child))
            × IsChild toy_curve toy_digest public_master 5 child))
child_key_public_example =
    child_key_public toy_curve toy_digest public_master 5 public_master-IsKey refl
