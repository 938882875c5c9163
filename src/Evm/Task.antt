-- ===== src/Evm/Task.antt =====
-- chain/evm/task.go: `BuildTaskPayload`, the payload of a task by the operation of its configuration.
-- The text of its errors is left out.
pub mod Value
pub mod Send
pub mod Agreement
use crosschain_enhanced_by_a.Prelude.{
  ℕ, zero, suc, ◌+◌, ◌%◌, ◌^◌, Bool, true, false, ◌||◌, not, List, [], ◌∷◌, ◌++◌, Option, none,
  some, Result, ok, err, ◌>>=◌, if◌then◌else◌, ◌==◌, length, get_elem?,
}
use crosschain_enhanced_by_a.Prelude.Int.{ℤ, pos}
use crosschain_enhanced_by_a.Prelude.Text.{Text, codes, eq_text, equal_fold, has_prefix, is_empty}
use crosschain_enhanced_by_a.Prelude.Bytes.{left_pad, big_bytes}
use crosschain_enhanced_by_a.Asset.Config.{AssetConfig}
use crosschain_enhanced_by_a.Evm.{Eth, TxInput, Failure}
use crosschain_enhanced_by_a.Evm.Address.{hex_to_address}
use crosschain_enhanced_by_a.Evm.Number.{hex_decode, set_hex_string}
use crosschain_enhanced_by_a.Evm.Tx.{Tx}
use crosschain_enhanced_by_a.Evm.Item.{
  AnyValue, Setting, Param, Operation, AssetItem, Task, Item, a_string, printed, unset, text,
  by_asset, foreign, single, task, native, token, deref, get_asset_config, get_native_asset,
  item_asset_config,
}
use crosschain_enhanced_by_a.Evm.Builder.{
  TxBuilder, padded_amount, method_id, build_evm_tx_with_payload, new_native_transfer,
  new_token_transfer,
}

-- What `BuildTaskPayload` returns: the recipient, the value and the data of the transaction.
pub record Payload : Type 0 where
  pub to : Text
  pub value : ℤ
  pub data_bytes : List ℕ

-- The loop over a map of contracts: the last key that is the asset in any case gives the contract. A
-- key or a value that is not a string panics.
unfoldable pub contract_for : Text → Text → List (AnyValue × AnyValue) → Result Failure Text
unfolding equal_fold
contract_for asset found [] = ok found
contract_for asset found ((printed k, v) ∷ rest) = err Failure.panic
contract_for asset found ((a_string k, a_string v) ∷ rest) =
    contract_for asset (if equal_fold k asset then v else found) rest
contract_for asset found ((a_string k, printed v) ∷ rest) =
    let more = contract_for asset found rest in
    if equal_fold k asset then err Failure.panic else more

-- `fmt.Sprintf("%v", v)`
abbrev pub sprint : AnyValue → Text
sprint (a_string v) = v
sprint (printed v) = v

-- The loop over a map of values.
unfoldable pub value_for : Text → Text → List (AnyValue × AnyValue) → Result Failure Text
unfolding equal_fold
value_for asset found [] = ok found
value_for asset found ((printed k, v) ∷ rest) = err Failure.panic
value_for asset found ((a_string k, v) ∷ rest) =
    value_for asset (if equal_fold k asset then sprint v else found) rest

-- `GetAssetConfig` and `GetNativeAsset` of the destination.
unfoldable pub dst_asset_config : Task → Result Failure AssetConfig
unfolding get_asset_config
dst_asset_config t = deref t.dst_asset >>= λ a. ok (get_asset_config a)

unfoldable pub dst_native_asset : Task → Result Failure AssetConfig
unfolding get_native_asset
dst_native_asset t = deref t.dst_asset >>= λ a. get_native_asset a

-- The recipient: the contract of the asset, unless the operation overrides it.
unfoldable pub operation_contract : Task → AssetConfig → Setting → Result Failure Text
unfolding eq_text contract_for dst_asset_config
operation_contract t asset unset = ok asset.contract
operation_contract t asset (text contract) =
    if eq_text contract (codes "dst_asset")
    then (dst_asset_config t >>= λ dst. ok dst.contract)
    else if is_empty contract
    then ok asset.contract
    else ok contract
operation_contract t asset (by_asset contracts) =
    contract_for asset.native_asset asset.contract contracts
operation_contract t asset foreign = err Failure.contract_type

-- `len(methodID) != 4`, and the decoding before it.
unfoldable pub signature_bytes : Text → Result Failure (List ℕ)
unfolding hex_decode
signature_bytes signature = elim (hex_decode signature) [
  | none ↦ err Failure.method_signature
  | some bytes ↦ if length bytes == 4 then ok bytes else err Failure.method_signature
]

-- The text of a parameter that is not bound, and the index of the next parameter of the user.
unfoldable pub param_text : Task → AssetConfig → TxInput → ℕ → Param → Result Failure (Text × ℕ)
unfolding value_for eq_text dst_native_asset
param_text t asset input next p = elim p.value [
  | text value ↦ ok (value, next)
  | by_asset values ↦ (do
    name ←
        if eq_text p.matching (codes "dst_asset")
        then (dst_native_asset t >>= λ dst. ok dst.native_asset)
        else ok asset.native_asset
    value ← value_for name [] values
    ok (value, next))
  | foreign ↦ err Failure.value_type
  | unset ↦ elim (get_elem? input.params next) [
    | none ↦ err Failure.missing_param
    | some value ↦ ok (value, next + 1)
  ]
]

-- Where the loop over the parameters stands.
pub record ParamState : Type 0 where
  pub data_bytes : List ℕ
  pub next : ℕ
  pub value_consumed : Bool

-- What the parameters of a task are encoded with: the addresses and the amount of the transfer.
pub record Transfer : Type 0 where
  pub from : Text
  pub to : Text
  pub amount : ℤ
  pub input : TxInput

-- What the file calls of shopspring/decimal.
pub record Decimals : Type 0 where
  -- `NewFromString`, followed by `BigInt`
  pub big_int : Text → Option ℤ
  -- A number of the first text divided by that of the second, shifted by a number of decimals.
  pub shifted_quotient : Text → Text → ℤ → ℤ

module _ (eth : Eth) (decimals : Decimals) where
  -- `LeftPadBytes` of `common.HexToAddress`, which removes no prefix.
  unfoldable pub padded_address : Text → List ℕ
  unfolding left_pad
  padded_address address = left_pad 32 (eth.hex_to_address address)

  unfoldable pub uint256_of : Text → Option ℤ
  unfolding has_prefix set_hex_string
  uint256_of value =
      if has_prefix value (codes "0x") then set_hex_string value else decimals.big_int value

  -- The encoding of a text by the type of the parameter; other types add nothing.
  unfoldable pub encode_text : Text → Text → Result Failure (List ℕ)
  unfolding uint256_of padded_amount padded_address eq_text
  encode_text kind value =
      let number : Result Failure (List ℕ) = elim (uint256_of value) [
        | none ↦ err Failure.bad_param
        | some n ↦ ok (padded_amount n)
      ] in
      if eq_text kind (codes "uint256")
      then number
      else if eq_text kind (codes "address")
      then ok (padded_address value)
      else ok []

  -- The `switch` on a bind; other binds add nothing.
  unfoldable pub bound_bytes : AssetConfig → Transfer → Text → List ℕ
  unfolding padded_amount padded_address eq_text
  bound_bytes asset transfer bind =
      if eq_text bind (codes "amount")
      then padded_amount transfer.amount
      else if eq_text bind (codes "from")
      then padded_address transfer.from
      else if eq_text bind (codes "to")
      then padded_address transfer.to
      else if eq_text bind (codes "contract")
      then padded_address asset.contract
      else []

  -- A round of the loop over the parameters.
  unfoldable pub add_param :
      Task → AssetConfig → Transfer → ParamState → Param → Result Failure ParamState
  unfolding bound_bytes param_text encode_text
  add_param t asset transfer state p =
      if is_empty p.bind
      then (do
        found ← param_text t asset transfer.input state.next p
        bytes ← encode_text p.kind found.0
        ok (record state { data_bytes = state.data_bytes ++ bytes; next = found.1 }))
      else ok (record state {
        data_bytes = state.data_bytes ++ bound_bytes asset transfer p.bind;
        value_consumed = state.value_consumed || eq_text p.bind (codes "amount");
      })

  -- The loop over the parameters.
  unfoldable pub add_params :
      Task → AssetConfig → Transfer → ParamState → List Param → Result Failure ParamState
  unfolding add_param
  add_params t asset transfer state [] = ok state
  add_params t asset transfer state (p ∷ ps) =
      add_param t asset transfer state p >>= λ next. add_params t asset transfer next ps

  -- `BuildTaskPayload`, once there is one operation.
  unfoldable pub operation_payload :
      Task → AssetConfig → Transfer → Operation → Result Failure Payload
  unfolding operation_contract signature_bytes add_params
  operation_payload t asset transfer op = do
    to ← operation_contract t asset op.contract
    method ← signature_bytes op.signature
    state ←
        add_params t asset transfer
          (record { data_bytes = method; next = 0; value_consumed = false }) op.params
    ok (record {
      to = to;
      value = if state.value_consumed then pos 0 else transfer.amount;
      data_bytes = state.data_bytes;
    })

  -- `BuildTaskPayload`
  unfoldable pub build_task_payload : Task → Transfer → Result Failure Payload
  unfolding operation_payload get_asset_config
  build_task_payload t transfer = do
    src ← deref t.src_asset
    elim t.operations [
      | op ∷ [] ↦ operation_payload t (get_asset_config src) transfer op
      | _ ↦ err Failure.operation_count
    ]
