-- ===== src/Tests/Transfer.antt =====
-- Tests of the building of transfers.
use crosschain_enhanced_by_a.Prelude.{false, [], ◌∷◌, ◌≡◌, ◌≢◌, refl, arith, ok, err, All}
use crosschain_enhanced_by_a.Prelude.Int.{pos, ◌+ℤ◌, ◌-ℤ◌, ◌*ℤ◌, neg_part}
use crosschain_enhanced_by_a.Prelude.Text.{Text, codes, one_of, eq_text}
use crosschain_enhanced_by_a.Asset.{asset_type_token}
use crosschain_enhanced_by_a.Bitcoin.{Recipient}
use crosschain_enhanced_by_a.Bitcoin.Failure.{Failure}
use crosschain_enhanced_by_a.Bitcoin.Params.{get_params, network_of, Coin}
use crosschain_enhanced_by_a.Bitcoin.Tx.{Tx, int64, to_signed}
use crosschain_enhanced_by_a.Bitcoin.Utxo.{
  take_largest, add_smallest, sorted_outputs, allocate_min_utxo_set,
}
use crosschain_enhanced_by_a.Bitcoin.Utxo.Insertion.{insertion, insertion_sort, insert}
use crosschain_enhanced_by_a.Bitcoin.Builder.{
  by_value, new_tx_builder, estimated_size, estimated_fee, transfer_tx, recipient_address,
  pay_output, pay_outputs, native_transfer, new_transfer,
}
use crosschain_enhanced_by_a.Bitcoin.Builder.Conserves.{
  InInt64, Conserves, spending, change, pays, native_transfer-Conserves,
}
use crosschain_enhanced_by_a.Bitcoin.Builder.Panics.{new_transfer-panics}
use crosschain_enhanced_by_a.Tests.Sample.{codec, wallet, btc_builder, doge_builder, doge_config}

abbrev alice : Text
alice = codes "alice"

abbrev bob : Text
bob = codes "bob"

abbrev sent : Tx
sent =
    transfer_tx btc_builder alice bob (pos 10000)
      (spending codec insertion btc_builder alice bob (pos 10000) wallet)
      (pays codec insertion btc_builder alice bob (pos 10000) wallet)
      (record { value = pos 10000; script = 118 ∷ bob }
        ∷ record { value = pos 64670; script = 118 ∷ alice }
        ∷ [])

sent_built : native_transfer codec insertion btc_builder alice bob (pos 10000) wallet ≡ ok sent
unfolding native_transfer allocate_min_utxo_set sorted_outputs take_largest add_smallest pay_outputs
    pay_output recipient_address int64 to_signed estimated_fee estimated_size insertion_sort insert
    ◌+ℤ◌ ◌-ℤ◌ ◌*ℤ◌ eq_text
sent_built = refl

sent_fits : All (λ (r : Recipient). InInt64 r.value) sent.recipients
unfolding transfer_tx allocate_min_utxo_set sorted_outputs take_largest add_smallest estimated_fee
    estimated_size insertion_sort insert ◌+ℤ◌ ◌-ℤ◌ ◌*ℤ◌ eq_text
sent_fits = ((omega arith, omega arith), ((omega arith, omega arith), tt))

native_transfer-Conserves_example : Conserves btc_builder.asset wallet sent.input sent.msg_tx.tx_out
native_transfer-Conserves_example =
    native_transfer-Conserves codec insertion btc_builder alice bob (pos 10000) wallet sent_built
      sent_fits

reads_bob : recipient_address codec bob btc_builder.params ≡ ok bob
unfolding recipient_address
reads_bob = refl

reads_alice : recipient_address codec alice btc_builder.params ≡ ok alice
unfolding recipient_address
reads_alice = refl

-- 80000 is more than the wallet holds.
overdraft_fits : InInt64 (change codec insertion btc_builder alice bob (pos 80000) wallet)
unfolding allocate_min_utxo_set sorted_outputs take_largest add_smallest estimated_fee
    estimated_size insertion_sort insert ◌+ℤ◌ ◌-ℤ◌ ◌*ℤ◌ eq_text
overdraft_fits = (omega arith, omega arith)

overdraft_short : neg_part (change codec insertion btc_builder alice bob (pos 80000) wallet) ≢ 0
unfolding allocate_min_utxo_set sorted_outputs take_largest add_smallest estimated_fee
    estimated_size insertion_sort insert ◌+ℤ◌ ◌-ℤ◌ ◌*ℤ◌ eq_text
overdraft_short = ground arith

dogecoin_is_not_bitcoin : doge_builder.params.coin ≢ Coin.bitcoin
dogecoin_is_not_bitcoin = λ e. cc

doge_built : new_tx_builder doge_config ≡ ok doge_builder
unfolding new_tx_builder get_params network_of one_of eq_text
doge_built = refl

doge_is_other : one_of doge_config.native_asset (codes "BTC" ∷ codes "BCH" ∷ []) ≡ false
unfolding one_of eq_text
doge_is_other = refl

doge_is_native : eq_text doge_config.asset_type asset_type_token ≡ false
unfolding eq_text
doge_is_native = refl

new_transfer-panics_example :
    new_transfer codec insertion doge_builder alice [] (pos 10) (by_value wallet)
    ≡ err Failure.panic
new_transfer-panics_example =
    new_transfer-panics codec insertion doge_config alice [] (pos 10) wallet doge_is_other
      doge_built doge_is_native refl
