-- ===== src/Bitcoin.antt =====
-- chain/bitcoin: the data of a transaction (tx.go) and of its input (tx_input.go).
pub mod Failure
pub mod Params
pub mod Codec
pub mod CashAddr
pub mod Address
pub mod Outputs
pub mod Tx
pub mod Builder
pub mod Detect
pub mod Signing
pub mod Sighash
pub mod Utxo
use crosschain_enhanced_by_a.Prelude.{ℕ, List, [], Option, none}
use crosschain_enhanced_by_a.Prelude.Int.{ℤ, pos}
use crosschain_enhanced_by_a.Prelude.Text.{Text}

-- `Outpoint`
pub record Outpoint : Type 0 where
  pub hash : List ℕ
  pub index : ℕ

-- `Output`; the embedded outpoint is the field `outpoint`.
pub record Output : Type 0 where
  pub outpoint : Outpoint
  pub value : ℤ
  pub pub_key_script : List ℕ

-- `Input`; a nil `SigScript` is `none`.
pub record Input : Type 0 where
  pub output : Output
  pub sig_script : Option (List ℕ)
  pub address : Text

-- `Recipient`
pub record Recipient : Type 0 where
  pub to : Text
  pub value : ℤ

-- `TxInput`, without the envelope, which holds the constant driver `bitcoin`.
pub record TxInput : Type 0 where
  pub unspent_outputs : List Output
  pub inputs : List Input
  pub from_public_key : List ℕ
  pub gas_price_per_byte : ℤ

-- `NewTxInput`
abbrev pub new_tx_input : TxInput
new_tx_input = record {
  unspent_outputs = [];
  inputs = [];
  from_public_key = [];
  gas_price_per_byte = pos 0;
}

-- `Input{Output: o}`
abbrev pub spend : Output → Input
spend o = record { output = o; sig_script = none; address = [] }
