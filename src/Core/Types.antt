-- ===== src/Core/Types.antt =====
-- The records of package core: transactions (core/transaction.go) and blocks (core/block.go). A Go
-- `int` or `int64` is an integer, a `uint32` a natural number below 2 ^ 32.
use earthion_blockchain_dev.Base.{ℕ, List, Bytes}
use earthion_blockchain_dev.Base.Int.{ℤ}

pub record TxInput : Type 0 where
  pub txid : Bytes
  pub out_index : ℤ
  pub signature : Bytes
  pub pub_key : Bytes

pub record TxOutput : Type 0 where
  pub value : ℤ
  pub pub_key : Bytes

pub record Transaction : Type 0 where
  pub id : Bytes
  pub inputs : List TxInput
  pub outputs : List TxOutput

pub record Block : Type 0 where
  pub index : ℤ
  pub timestamp : ℤ
  pub prev_hash : Bytes
  pub merkle_root : Bytes
  pub hash : Bytes
  pub nonce : ℤ
  pub difficulty : ℕ
  pub transactions : List Transaction
