-- ===== src/Bitcoin/Builder/Panics.antt =====
-- chain/bitcoin/address.go, builder.go: an address that does not decode makes a transfer on Dogecoin
-- or Litecoin panic, since the fallback to Bitcoin Cash has no prefix for their networks.
use crosschain_enhanced_by_a.Prelude.{false, List, [], ◌∷◌, none, ◌≡◌, ◌≢◌, ◌↔◌, arith, ok, err}
use crosschain_enhanced_by_a.Prelude.Int.{ℤ}
use crosschain_enhanced_by_a.Prelude.Text.{Text, codes, eq_text, one_of}
use crosschain_enhanced_by_a.Asset.{asset_type_token}
use crosschain_enhanced_by_a.Asset.Config.{AssetConfig}
use crosschain_enhanced_by_a.Bitcoin.{TxInput, Recipient}
use crosschain_enhanced_by_a.Bitcoin.Failure.{Failure}
use crosschain_enhanced_by_a.Bitcoin.Params.{Coin, Params}
use crosschain_enhanced_by_a.Bitcoin.Codec.{Codec}
use crosschain_enhanced_by_a.Bitcoin.CashAddr.{
  address_prefix, decode_cash_address, decode_bch_address,
}
use crosschain_enhanced_by_a.Bitcoin.Utxo.{SliceSort}
use crosschain_enhanced_by_a.Bitcoin.Builder.{
  TxBuilder, by_value, new_tx_builder, recipient_address, pay_output, pay_outputs, native_transfer,
  new_native_transfer, new_transfer,
}
use crosschain_enhanced_by_a.Bitcoin.Builder.Conserves.{change}

address_prefix-none_iff : (p : Params) → (address_prefix p ≡ none) ↔ (p.coin ≢ Coin.bitcoin)
unfolding address_prefix
address_prefix-none_iff p = ground arith

builder_params :
    (asset : AssetConfig) {builder : TxBuilder}
    → one_of asset.native_asset (codes "BTC" ∷ codes "BCH" ∷ []) ≡ false
    → new_tx_builder asset ≡ ok builder
    → (builder.params.coin ≢ Coin.bitcoin) × (builder.asset.asset_type ≡ asset.asset_type)
unfolding new_tx_builder
builder_params asset other built = ground arith

module _ (lib : Codec) where
  -- On a network of Dogecoin or Litecoin, an address that btcutil does not decode panics.
  pub recipient_address-panics :
      (to : Text) (p : Params)
      → p.coin ≢ Coin.bitcoin
      → lib.decode_address to p ≡ none
      → recipient_address lib to p ≡ err Failure.panic
  unfolding recipient_address decode_bch_address
  recipient_address-panics to p other undecoded =
      let no_prefix = (address_prefix-none_iff p).1 other in
      unfold decode_cash_address in ground (arith, no_prefix)

  pay_outputs-panics :
      (p : Params) (r : Recipient) (rs : List Recipient)
      → recipient_address lib r.to p ≡ err Failure.panic
      → pay_outputs lib p (r ∷ rs) ≡ err Failure.panic
  unfolding pay_outputs pay_output
  pay_outputs-panics p r rs h = ground (arith, h)

  module _ (s : SliceSort) where
    native_transfer-panics :
        (builder : TxBuilder) (from to : Text) (amount : ℤ) (input : TxInput)
        → recipient_address lib to builder.params ≡ err Failure.panic
        → native_transfer lib s builder from to amount input ≡ err Failure.panic
    unfolding native_transfer
    native_transfer-panics builder from to amount input h =
        let rest : List Recipient =
          record { to = from; value = change lib s builder from to amount input } ∷ [] in
        rw (pay_outputs-panics builder.params (record { to = to; value = amount }) rest h)

    -- A transfer on Dogecoin or Litecoin to an address that btcutil does not decode panics, where the
    -- comment of the fallback and the signature promise an error.
    pub new_transfer-panics :
        (asset : AssetConfig) {builder : TxBuilder} (from to : Text) (amount : ℤ) (input : TxInput)
        → one_of asset.native_asset (codes "BTC" ∷ codes "BCH" ∷ []) ≡ false
        → new_tx_builder asset ≡ ok builder
        → eq_text asset.asset_type asset_type_token ≡ false
        → lib.decode_address to builder.params ≡ none
        → new_transfer lib s builder from to amount (by_value input) ≡ err Failure.panic
    unfolding new_transfer new_native_transfer
    new_transfer-panics asset {builder} from to amount input other built plain undecoded =
        let (coin, same) = builder_params asset other built in
        let refused = recipient_address-panics to builder.params coin undecoded in
        ground (arith, same, plain, native_transfer-panics builder from to amount input refused)
