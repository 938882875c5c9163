-- ===== src/Bitcoin/Builder.antt =====
-- chain/bitcoin/builder.go: `NewTxBuilder`, `NewTransfer` and `NewNativeTransfer`. The sort and the
-- codec are arguments. The shared array of `UnspentOutputs`, which the sort reorders for the caller
-- too, is a value here: no later step reads it.
pub mod Conserves
pub mod Panics
use crosschain_enhanced_by_a.Prelude.{
  ℕ, ◌+◌, ◌*◌, ◌%◌, ◌^◌, Bool, true, false, List, [], ◌∷◌, map, Option, none, some, Result, ok, err,
  ◌>>=◌, if◌then◌else◌, length,
}
use crosschain_enhanced_by_a.Prelude.Int.{ℤ, pos, negsuc, ◌+ℤ◌, ◌-ℤ◌, ◌*ℤ◌, ltb_ℤ}
use crosschain_enhanced_by_a.Prelude.Text.{Text, codes, eq_text}
use crosschain_enhanced_by_a.Asset.{asset_type_token}
use crosschain_enhanced_by_a.Asset.Config.{AssetConfig}
use crosschain_enhanced_by_a.Bitcoin.{Input, Recipient, TxInput}
use crosschain_enhanced_by_a.Bitcoin.Failure.{Failure}
use crosschain_enhanced_by_a.Bitcoin.Params.{Params, get_params}
use crosschain_enhanced_by_a.Bitcoin.Codec.{Codec}
use crosschain_enhanced_by_a.Bitcoin.CashAddr.{decode_bch_address, bch_address_from_bytes}
use crosschain_enhanced_by_a.Bitcoin.Tx.{TxIn, TxOut, MsgTx, Tx, copy_into, int64}
use crosschain_enhanced_by_a.Bitcoin.Utxo.{SliceSort, allocate_min_utxo_set}

-- `TxBuilder`
pub record TxBuilder : Type 0 where
  pub asset : AssetConfig
  pub params : Params
  pub is_bch : Bool

-- `xc.TxInput`, an interface: the two dynamic types that are accepted, and any other.
pub data AnyInput : Type 0 where
  by_value : TxInput → AnyInput
  by_pointer : TxInput → AnyInput
  foreign : AnyInput

-- `NewTxBuilder`, of the native asset of an item.
unfoldable pub new_tx_builder : AssetConfig → Result Failure TxBuilder
unfolding get_params
new_tx_builder asset = do
  params ← get_params asset
  ok (record { asset = asset; params = params; is_bch = eq_text asset.native_asset (codes "BCH") })

-- The estimate of the size: 255 bytes for an input, 300 on Bitcoin Cash.
unfoldable pub estimated_size : Bool → ℕ → ℤ
estimated_size bch inputs = if bch then pos (300 * inputs % 2 ^ 64) else pos (255 * inputs % 2 ^ 64)

-- `gasPrice.Mul(&estimatedTxBytesLength)`
unfoldable pub estimated_fee : AssetConfig → TxInput → ℤ
unfolding estimated_size
estimated_fee asset input =
    input.gas_price_per_byte
    *ℤ estimated_size (eq_text asset.native_asset (codes "BCH")) (length input.inputs)

-- `wire.NewTxIn(wire.NewOutPoint(&hash, input.Index), nil, nil)`
unfoldable pub new_tx_in : Input → TxIn
unfolding copy_into
new_tx_in i = record {
  hash = copy_into 32 i.output.outpoint.hash;
  index = i.output.outpoint.index;
  signature_script = none;
  witness = [];
}

-- The transaction of a transfer that has its outputs.
unfoldable pub transfer_tx :
    TxBuilder → Text → Text → ℤ → TxInput → List Recipient → List TxOut → Tx
unfolding new_tx_in
transfer_tx builder from to amount input recipients outs = record {
  msg_tx = record { version = 2; tx_in = map new_tx_in input.inputs; tx_out = outs };
  signed = false;
  recipients = recipients;
  amount = amount;
  input = input;
  from = from;
  to = to;
  is_bch = builder.is_bch;
}

module _ (lib : Codec) where
  -- The address of a recipient. A returned error of the fallback gives the first error back.
  unfoldable pub recipient_address : Text → Params → Result Failure lib.Addr
  recipient_address to params = elim (lib.decode_address to params) [
    | some addr ↦ ok addr
    | none ↦ elim (decode_bch_address lib to params) [
      | ok bytes ↦ bch_address_from_bytes lib bytes params
      | err Failure.panic ↦ err Failure.panic
      | err _ ↦ err Failure.undecodable_address
    ]
  ]

  -- A round of the loop over the recipients.
  unfoldable pub pay_output : Params → Recipient → Result Failure TxOut
  pay_output params r = do
    addr ← recipient_address r.to params
    elim (lib.pay_to_addr_script addr) [
      | none ↦ err Failure.no_script
      | some script ↦
          let value = int64 r.value in
          if ltb_ℤ value (pos 0)
          then err Failure.negative_value
          else ok (record { value = value; script = script })
    ]

  -- The loop over the recipients.
  unfoldable pub pay_outputs : Params → List Recipient → Result Failure (List TxOut)
  pay_outputs params [] = ok []
  pay_outputs params (r ∷ rs) =
      let rest = pay_outputs params rs in do out ← pay_output params r; outs ← rest; ok (out ∷ outs)

  module _ (s : SliceSort) where
    -- `NewNativeTransfer`, once the input has its type.
    unfoldable pub native_transfer : TxBuilder → Text → Text → ℤ → TxInput → Result Failure Tx
    native_transfer builder from to amount input =
        let (allocated, total_spend) = allocate_min_utxo_set s input amount 10 in
        let local = record allocated { unspent_outputs = [] } in
        let fee = estimated_fee builder.asset local in
        let change = total_spend -ℤ (amount +ℤ fee) in
        let recipients : List Recipient =
          record { to = to; value = amount } ∷ record { to = from; value = change } ∷ [] in
        do
          outs ← pay_outputs builder.params recipients
          ok (transfer_tx builder from to amount local recipients outs)

    -- `NewNativeTransfer`
    unfoldable pub new_native_transfer : TxBuilder → Text → Text → ℤ → AnyInput → Result Failure Tx
    new_native_transfer builder from to amount (by_value input) =
        native_transfer builder from to amount input
    new_native_transfer builder from to amount (by_pointer input) =
        native_transfer builder from to amount input
    new_native_transfer builder from to amount foreign = err Failure.wrong_input

    -- `NewTransfer`; `NewTokenTransfer` is not implemented.
    unfoldable pub new_transfer : TxBuilder → Text → Text → ℤ → AnyInput → Result Failure Tx
    new_transfer builder from to amount input =
        if eq_text builder.asset.asset_type asset_type_token
        then err Failure.not_implemented
        else new_native_transfer builder from to amount input
