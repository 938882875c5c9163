-- ===== src/Bitcoin/Tx.antt =====
-- chain/bitcoin/tx.go: a transaction, the part of `wire.MsgTx` that the program builds, and the
-- conversion of amounts to int64.
use crosschain_enhanced_by_a.Prelude.{
  ℕ, suc, ◌-◌, ◌%◌, ◌^◌, Bool, List, ◌++◌, Option, if◌then◌else◌, ltb, length, take, replicate,
}
use crosschain_enhanced_by_a.Prelude.Int.{ℤ, pos, negsuc}
use crosschain_enhanced_by_a.Prelude.Text.{Text}
use crosschain_enhanced_by_a.Bitcoin.{TxInput, Recipient}

-- `wire.TxIn`: the outpoint, and what a signature fills in. A nil script is `none`.
pub record TxIn : Type 0 where
  pub hash : List ℕ
  pub index : ℕ
  pub signature_script : Option (List ℕ)
  pub witness : List (List ℕ)

-- `wire.TxOut`
pub record TxOut : Type 0 where
  pub value : ℤ
  pub script : List ℕ

-- `wire.MsgTx`, with the version that `wire.NewMsgTx` is given.
pub record MsgTx : Type 0 where
  pub version : ℕ
  pub tx_in : List TxIn
  pub tx_out : List TxOut

-- `Tx`
pub record Tx : Type 0 where
  pub msg_tx : MsgTx
  pub signed : Bool
  pub recipients : List Recipient
  pub amount : ℤ
  pub input : TxInput
  pub from : Text
  pub to : Text
  pub is_bch : Bool

-- `copy` into an array of `n` zero bytes.
unfoldable pub copy_into : ℕ → List ℕ → List ℕ
copy_into n bytes = take n bytes ++ replicate (n - length bytes) 0

-- The int64 of a 64-bit pattern.
unfoldable pub to_signed : ℕ → ℤ
to_signed u = if ltb u (2 ^ 63) then pos u else negsuc (2 ^ 64 - u - 1)

-- `big.Int.Int64`: the low 64 bits, negated in two's complement for a negative integer.
unfoldable pub int64 : ℤ → ℤ
unfolding to_signed
int64 (pos n) = to_signed (n % 2 ^ 64)
int64 (negsuc n) = to_signed ((2 ^ 64 - suc n % 2 ^ 64) % 2 ^ 64)

-- `big.Int.Uint64`: the low 64 bits of the absolute value.
unfoldable pub uint64 : ℤ → ℕ
uint64 (pos n) = n % 2 ^ 64
uint64 (negsuc n) = suc n % 2 ^ 64
