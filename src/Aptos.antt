-- ===== src/Aptos.antt =====
-- chain/aptos: what the driver calls of go-aptos, of lcs and of sha3, as an argument of the model, and
-- the types that its files share.
pub mod Builder
pub mod Tx
use crosschain_enhanced_by_a.Prelude.{
  ℕ, ◌-◌, ◌<◌, ◌^◌, ◌≡◌, List, [], ◌∷◌, ◌++◌, Option, none, some, Result, ok, err, take, replicate,
  length,
}
use crosschain_enhanced_by_a.Prelude.Int.{ℤ}
use crosschain_enhanced_by_a.Prelude.Text.{Text, codes, replace_first}
use crosschain_enhanced_by_a.Asset.Config.{AssetConfig, TokenConfig}
use crosschain_enhanced_by_a.Evm.Number.{hex_decode}

-- The errors of the driver; `panic` stands for a panic of the program.
pub data Failure : Type 0 where
  panic bad_module bad_type no_signing_message not_one_signature not_signed no_public_key : Failure
  bad_public_key bad_signature bad_transaction bad_hex bad_base64 : Failure

-- `TxInput`, without the envelope.
pub record TxInput : Type 0 where
  pub sequence_number : ℕ
  pub gas_limit : ℕ
  pub gas_price : ℕ
  pub timestamp : ℕ
  pub chain_id : ℤ
  pub pubkey : List ℕ

-- `transactionbuilder.TransactionPayloadEntryFunction`
pub record EntryFunction (ModuleId TypeTag : Type 0) : Type 0 where
  pub module_name : ModuleId
  pub function_name : Text
  pub ty_args : List TypeTag
  pub arguments : List (List ℕ)

-- `transactionbuilder.RawTransaction`
pub record RawTransaction (ModuleId TypeTag : Type 0) : Type 0 where
  pub sender : List ℕ
  pub sequence_number : ℕ
  pub payload : EntryFunction ModuleId TypeTag
  pub max_gas_amount : ℕ
  pub gas_unit_price : ℕ
  pub expiration_timestamp_secs : ℕ
  pub chain_id : ℕ

-- go-aptos, lcs, sha3 and base64. A returned error is `none`.
pub record Apt : Type 1 where
  pub ModuleId : Type 0
  pub TypeTag : Type 0
  pub module_id : Text → Option ModuleId
  pub type_tag : Text → Option TypeTag
  -- `BCSSerializeBasicValue` of a uint64
  pub bcs_uint64 : ℕ → List ℕ
  pub signing_message : RawTransaction ModuleId TypeTag → Option (List ℕ)
  pub public_key : List ℕ → Option (List ℕ)
  pub signature : List ℕ → Option (List ℕ)
  pub marshal_signed : RawTransaction ModuleId TypeTag → List ℕ → List ℕ → Option (List ℕ)
  pub sha3_256 : List ℕ → List ℕ
  pub base64_decode : Text → Option (List ℕ)

-- The asset of a builder: a native asset, or a token.
pub data Asset : Type 0 where
  native : AssetConfig → Asset
  token : TokenConfig → Asset

abbrev pub or_fail : {A : Type 0} → Failure → Option A → Result Failure A
or_fail e none = err e
or_fail e (some a) = ok a

-- `mustDecodeHex`
unfoldable pub must_decode_hex : Text → Result Failure (List ℕ)
unfolding replace_first hex_decode
must_decode_hex h = or_fail panic (hex_decode (replace_first h (codes "0x") []))

-- `copy` into an array of 32 bytes: the rest stays 0.
unfoldable pub address_array : List ℕ → List ℕ
address_array bytes = take 32 bytes ++ replicate (32 - length (take 32 bytes)) 0
