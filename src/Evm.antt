-- ===== src/Evm.antt =====
-- chain/evm: what the driver of the EVM chains calls of go-ethereum and of x/crypto, as an argument of
-- the model, the laws that the properties rely on, and the types that the files of the driver share.
pub mod Address
pub mod Item
pub mod Number
pub mod Tx
pub mod Transfers
pub mod Builder
pub mod Task
pub mod Fee
pub mod Client
use crosschain_enhanced_by_a.Prelude.{ℕ, ◌≡◌, Bool, List, Option, none, some, length}
use crosschain_enhanced_by_a.Prelude.Int.{ℤ}
use crosschain_enhanced_by_a.Prelude.Text.{Text}

-- `TxInput`, without the type tag of the envelope.
pub record TxInput : Type 0 where
  pub nonce : ℕ
  pub gas_limit : ℕ
  pub gas_tip_cap : ℤ
  pub gas_fee_cap : ℤ
  pub gas_price : ℤ
  pub params : List Text

-- The arguments of `types.NewTransaction`.
pub record LegacyTx : Type 0 where
  pub nonce : ℕ
  pub to : List ℕ
  pub value : ℤ
  pub gas : ℕ
  pub gas_price : ℤ
  pub data_bytes : List ℕ

-- `types.DynamicFeeTx`, as far as it is set.
pub record DynamicFeeTx : Type 0 where
  pub chain_id : ℤ
  pub nonce : ℕ
  pub gas_tip_cap : ℤ
  pub gas_fee_cap : ℤ
  pub gas : ℕ
  pub to : List ℕ
  pub value : ℤ
  pub data_bytes : List ℕ

-- go-ethereum and keccak. A nil pointer and a returned error are `none`.
pub record Eth : Type 1 where
  pub Transaction : Type 0
  pub Signer : Type 0
  pub PublicKey : Type 0
  pub new_transaction : LegacyTx → Transaction
  pub new_tx : DynamicFeeTx → Transaction
  pub data_of : Transaction → List ℕ
  pub to_of : Transaction → Option (List ℕ)
  pub value_of : Transaction → ℤ
  pub gas_tip_cap_of : Transaction → ℤ
  pub gas_price_of : Transaction → ℤ
  -- `Transaction.Hash().Hex()`
  pub hash_of : Transaction → Text
  pub marshal_binary : Transaction → Option (List ℕ)
  pub latest_signer_for_chain_id : ℤ → Signer
  pub signer_hash : Signer → Transaction → List ℕ
  pub with_signature : Transaction → Signer → List ℕ → Option Transaction
  pub sender : Signer → Transaction → Option (List ℕ)
  pub decompress_pubkey : List ℕ → Option PublicKey
  pub unmarshal_pubkey : List ℕ → Option PublicKey
  -- `PubkeyToAddress(key).Hex()`
  pub pubkey_address : PublicKey → Text
  -- `common.HexToAddress`, and `String` of a `common.Address`
  pub hex_to_address : Text → List ℕ
  pub address_string : List ℕ → Text
  -- `NewLegacyKeccak256` of a text
  pub keccak : Text → List ℕ

-- A transaction has the payload, the recipient, the value and the prices that it was made with: the
-- price of a dynamic one is its cap, the tip of a legacy one its price. An address is 20 bytes long.
pub record EthLaws (eth : Eth) : Type 0 where
  pub data_legacy : (l : LegacyTx) → eth.data_of (eth.new_transaction l) ≡ l.data_bytes
  pub data_dynamic : (d : DynamicFeeTx) → eth.data_of (eth.new_tx d) ≡ d.data_bytes
  pub to_legacy : (l : LegacyTx) → eth.to_of (eth.new_transaction l) ≡ some l.to
  pub to_dynamic : (d : DynamicFeeTx) → eth.to_of (eth.new_tx d) ≡ some d.to
  pub value_legacy : (l : LegacyTx) → eth.value_of (eth.new_transaction l) ≡ l.value
  pub value_dynamic : (d : DynamicFeeTx) → eth.value_of (eth.new_tx d) ≡ d.value
  pub tip_legacy : (l : LegacyTx) → eth.gas_tip_cap_of (eth.new_transaction l) ≡ l.gas_price
  pub tip_dynamic : (d : DynamicFeeTx) → eth.gas_tip_cap_of (eth.new_tx d) ≡ d.gas_tip_cap
  pub price_legacy : (l : LegacyTx) → eth.gas_price_of (eth.new_transaction l) ≡ l.gas_price
  pub price_dynamic : (d : DynamicFeeTx) → eth.gas_price_of (eth.new_tx d) ≡ d.gas_fee_cap
  pub address_size : (t : Text) → length (eth.hex_to_address t) ≡ 20

-- Why a call of the driver fails; `panic` is a run-time error of Go.
pub data Failure : Type 0 where
  panic not_initialized bad_signature not_marshalled bad_public_key : Failure
  not_erc20 miscellaneous not_multisend multisend_length : Failure
  operation_count contract_type method_signature value_type missing_param bad_param no_price
        no_arbiter_fee :
      Failure
  rpc : Failure
