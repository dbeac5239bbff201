-- ===== src/Core/Platform.antt =====
-- What the program calls and does not implement: SHA-256, the encodings of encoding/gob, and the
-- secp256k1 signatures of btcec. Each is a field; the laws are the documented facts relied on.
use earthion_blockchain_dev.Base.{List, [], ◌++◌, Bytes, Bool, true, Option, some}
use earthion_blockchain_dev.Crypto.Hash.{Digest, toy_digest}
use earthion_blockchain_dev.Core.Types.{Transaction, Block}

pub record Platform : Type 0 where
  pub digest : Digest
  -- `gob.NewEncoder(&buf).Encode(tx)`, of a block, and of the blocks of a chain, in one process:
  -- encoding/gob numbers the types in the order in which a process first encodes them, so that two
  -- processes may write the same value differently, and are two platforms.
  pub encode_tx : Transaction → Bytes
  pub encode_block : Block → Bytes
  pub encode_chain : List Block → Bytes
  -- `btcec.ParsePubKey` and `ecdsa.ParseDERSignature` succeed.
  pub parse_pub_key : Bytes → Bool
  pub parse_signature : Bytes → Bool
  -- `sig.Verify(data, key)`: public key, data, signature.
  pub ecdsa_verify : Bytes → Bytes → Bytes → Bool
  -- `btcec.PrivKeyFromBytes`: the private key, and the pointer to the public key.
  pub priv_key_from_bytes : Bytes → Bytes × Option Bytes
  -- `ecdsa.Sign(key, data)`, serialized; `none` is nil.
  pub ecdsa_sign : Bytes → Bytes → Option Bytes

-- A platform to run the definitions with.
abbrev pub toy_platform : Platform
toy_platform = record {
  digest = toy_digest;
  encode_tx = λ tx. tx.id;
  encode_block = λ b. b.prev_hash ++ b.merkle_root;
  encode_chain = λ bs. [];
  parse_pub_key = λ k. true;
  parse_signature = λ s. true;
  ecdsa_verify = λ k d s. true;
  priv_key_from_bytes = λ k. (k, some k);
  ecdsa_sign = λ k d. some (k ++ d);
}
