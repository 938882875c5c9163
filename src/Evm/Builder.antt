-- ===== src/Evm/Builder.antt =====
-- chain/evm/builder.go: native and token transfers. `NewTransfer` is in Evm/Task, beside `NewTask`.
-- The input is a pointer, so each call gives the input that it leaves next to its result. The method
-- of a payload is the start of a hash.
pub mod Words
pub mod ReadBack
use crosschain_enhanced_by_a.Prelude.{
  ℕ, ◌+◌, Bool, true, false, List, [], ◌∷◌, ◌++◌, Option, none, some, Result, ok, err, ◌>>=◌,
  if◌then◌else◌, take,
}
use crosschain_enhanced_by_a.Prelude.Int.{ℤ, pos}
use crosschain_enhanced_by_a.Prelude.Text.{Text, codes, eq_text}
use crosschain_enhanced_by_a.Prelude.Bytes.{big_bytes, left_pad}
use crosschain_enhanced_by_a.Asset.Config.{AssetConfig}
use crosschain_enhanced_by_a.Evm.{Eth, TxInput, LegacyTx, DynamicFeeTx, Failure}
use crosschain_enhanced_by_a.Evm.Address.{hex_to_address}
use crosschain_enhanced_by_a.Evm.Tx.{Tx}
use crosschain_enhanced_by_a.Evm.Item.{Item, item_asset_config, item_native_asset}

-- `TxBuilder`
pub record TxBuilder : Type 0 where
  pub asset : Item
  pub legacy : Bool

-- `NewTxBuilder`
unfoldable pub new_tx_builder : Item → TxBuilder
new_tx_builder asset = record { asset = asset; legacy = false }

-- `NewLegacyTxBuilder`
unfoldable pub new_legacy_tx_builder : Item → TxBuilder
new_legacy_tx_builder asset = record { asset = asset; legacy = true }

-- `common.LeftPadBytes(amount.Int().Bytes(), 32)`
unfoldable pub padded_amount : ℤ → List ℕ
unfolding left_pad big_bytes
padded_amount amount = left_pad 32 (big_bytes amount)

-- The gas limit of a native transfer, and of a token transfer.
unfoldable pub native_gas_limit : AssetConfig → ℕ
unfolding eq_text
native_gas_limit asset = if eq_text asset.native_asset (codes "ArbETH") then 4000000 else 90000

unfoldable pub token_gas_limit : AssetConfig → ℕ
unfolding eq_text
token_gas_limit asset =
    if eq_text asset.native_asset (codes "ArbETH")
    then 4000000
    else if eq_text asset.native_asset (codes "OasisROSE")
    then 500000
    else 350000

module _ (eth : Eth) where
  -- The first four bytes of the hash of a method's signature.
  unfoldable pub method_id : Text → List ℕ
  method_id signature = take 4 (eth.keccak signature)

  -- `buildERC20Payload`
  unfoldable pub build_erc20_payload : Text → ℤ → Result Failure (List ℕ)
  unfolding method_id hex_to_address padded_amount left_pad
  build_erc20_payload to amount = do
    address ← hex_to_address eth to
    ok (
        method_id (codes "transfer(address,uint256)")
        ++ (left_pad 32 address ++ padded_amount amount))

  -- The transaction of a builder, dynamic or legacy.
  unfoldable pub eth_transaction : Bool → ℤ → List ℕ → ℤ → List ℕ → TxInput → eth.Transaction
  eth_transaction true chain_id address value payload input = eth.new_transaction (record {
    nonce = input.nonce;
    to = address;
    value = value;
    gas = input.gas_limit;
    gas_price = input.gas_price;
    data_bytes = payload;
  })
  eth_transaction false chain_id address value payload input = eth.new_tx (record {
    chain_id = chain_id;
    nonce = input.nonce;
    gas_tip_cap = input.gas_tip_cap;
    gas_fee_cap = input.gas_fee_cap;
    gas = input.gas_limit;
    to = address;
    value = value;
    data_bytes = payload;
  })

  -- `buildEvmTxWithPayload`
  unfoldable pub build_evm_tx_with_payload :
      TxBuilder → Text → ℤ → List ℕ → TxInput → Result Failure (Tx eth)
  unfolding hex_to_address item_native_asset eth_transaction
  build_evm_tx_with_payload builder to value payload input = do
    address ← hex_to_address eth to
    config ← item_native_asset builder.asset
    ok (record {
      eth_tx = some (eth_transaction builder.legacy config.chain_id address value payload input);
      signer = some (eth.latest_signer_for_chain_id config.chain_id);
    })

  -- `NewNativeTransfer`, of an input that is a `*TxInput`
  unfoldable pub new_native_transfer :
      TxBuilder → Text → ℤ → TxInput → TxInput × Result Failure (Tx eth)
  unfolding item_asset_config native_gas_limit build_evm_tx_with_payload
  new_native_transfer builder to amount input = elim (item_asset_config builder.asset) [
    | err e ↦ (input, err e)
    | ok asset ↦
        let limited = record input { gas_limit = native_gas_limit asset } in
        (limited, build_evm_tx_with_payload builder to amount [] limited)
  ]

  -- `NewTokenTransfer`, of an input that is a `*TxInput`
  unfoldable pub new_token_transfer :
      TxBuilder → Text → ℤ → TxInput → TxInput × Result Failure (Tx eth)
  unfolding item_asset_config token_gas_limit build_erc20_payload build_evm_tx_with_payload
  new_token_transfer builder to amount input = elim (item_asset_config builder.asset) [
    | err e ↦ (input, err e)
    | ok asset ↦
        let limited = record input { gas_limit = token_gas_limit asset } in
        (
          limited,
          (do
            payload ← build_erc20_payload to amount
            build_evm_tx_with_payload builder asset.contract (pos 0) payload limited),
        )
  ]
