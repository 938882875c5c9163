-- ===== src/Evm/Task/Send.antt =====
-- chain/evm/task.go: the transactions of a task, the proxy and the Wormhole transfers, and `NewTransfer`
-- of chain/evm/builder.go. Each gives the input that it leaves next to its result.
use crosschain_enhanced_by_a.Prelude.{
  ℕ, ◌%◌, ◌^◌, List, ◌++◌, none, some, Result, ok, err, ◌>>=◌, if◌then◌else◌,
}
use crosschain_enhanced_by_a.Prelude.Int.{ℤ, pos}
use crosschain_enhanced_by_a.Prelude.Text.{Text, codes, eq_text, is_empty}
use crosschain_enhanced_by_a.Prelude.Bytes.{left_pad, big_bytes}
use crosschain_enhanced_by_a.Asset.Config.{AssetConfig}
use crosschain_enhanced_by_a.Evm.{Eth, TxInput, Failure}
use crosschain_enhanced_by_a.Evm.Address.{hex_to_address}
use crosschain_enhanced_by_a.Evm.Tx.{Tx}
use crosschain_enhanced_by_a.Evm.Item.{Task, single, task, native, token, item_asset_config}
use crosschain_enhanced_by_a.Evm.Builder.{
  TxBuilder, padded_amount, method_id, build_evm_tx_with_payload, new_native_transfer,
  new_token_transfer,
}
use crosschain_enhanced_by_a.Evm.Task.{Payload, Transfer, Decimals, build_task_payload}

-- `binary.BigEndian.PutUint32(nonceBytes, uint32(n))`
unfoldable pub put_uint32 : ℕ → List ℕ
unfolding left_pad big_bytes
put_uint32 n = left_pad 4 (big_bytes (pos (n % 2 ^ 32)))

module _ (eth : Eth) (decimals : Decimals) where
  -- The gas limit of a task.
  unfoldable pub task_gas_limit : AssetConfig → ℕ
  unfolding eq_text
  task_gas_limit asset =
      if eq_text asset.native_asset (codes "ArbETH")
      then 20000000
      else if eq_text asset.native_asset (codes "KLAY")
      then 2000000
      else 800000

  -- `BuildTaskTx`
  unfoldable pub build_task_tx : TxBuilder → Task → Transfer → TxInput × Result Failure (Tx eth)
  unfolding task_gas_limit build_task_payload build_evm_tx_with_payload item_asset_config
  build_task_tx builder t transfer = elim (item_asset_config builder.asset) [
    | err e ↦ (transfer.input, err e)
    | ok asset ↦
        let limited = record transfer.input { gas_limit = task_gas_limit asset } in
        (
          limited,
          (do
            payload ← build_task_payload eth decimals t (record transfer { input = limited })
            build_evm_tx_with_payload eth builder payload.to payload.value payload.data_bytes
                limited),
        )
  ]

  -- `BuildProxyPayload`
  unfoldable pub build_proxy_payload : Text → Text → ℤ → Result Failure (List ℕ)
  unfolding method_id hex_to_address left_pad padded_amount
  build_proxy_payload contract to amount = do
    address ← hex_to_address eth to
    target ← hex_to_address eth contract
    let tail = padded_amount amount ++ left_pad 32 address in
        ok (
          if is_empty contract
          then method_id eth (codes "sendETH(uint256,address)") ++ tail
          else method_id eth (codes "sendTokens(address,uint256,address)")
            ++ (left_pad 32 target ++ tail))

  -- `BuildProxyTransferTx`: the transaction is sent to `from`, the contract that holds the funds.
  unfoldable pub build_proxy_transfer_tx : TxBuilder → Transfer → TxInput × Result Failure (Tx eth)
  unfolding build_proxy_payload build_evm_tx_with_payload item_asset_config
  build_proxy_transfer_tx builder transfer =
      let limited = record transfer.input { gas_limit = 400000 } in
      (
        limited,
        (do
          asset ← item_asset_config builder.asset
          payload ← build_proxy_payload asset.contract transfer.to transfer.amount
          build_evm_tx_with_payload eth builder transfer.from (pos 0) payload limited),
      )

  -- The fee of the arbiter: a token's price is required.
  unfoldable pub arbiter_fee : Task → Result Failure ℤ
  unfolding eq_text
  arbiter_fee t = elim t.dst_asset [
    | some (token dst price) ↦
        if eq_text price (codes "0") then err Failure.no_price else (elim t.arbiter_fee_usd [
          | none ↦ err Failure.no_arbiter_fee
          | some fee ↦ ok (decimals.shifted_quotient fee price dst.decimals)
        ])
    | _ ↦ err Failure.panic
  ]

  -- `BuildWormholePayload`
  unfoldable pub build_wormhole_payload : Task → Transfer → Result Failure Payload
  unfolding build_task_payload arbiter_fee padded_amount left_pad put_uint32
  build_wormhole_payload t transfer = do
    payload ← build_task_payload eth decimals t transfer
    fee ← arbiter_fee t
    ok (record payload {
      data_bytes =
          payload.data_bytes ++ padded_amount fee ++ left_pad 32 (put_uint32 transfer.input.nonce);
    })

  -- The gas limit of a Wormhole transfer.
  unfoldable pub wormhole_gas_limit : AssetConfig → ℕ
  unfolding eq_text
  wormhole_gas_limit asset = if eq_text asset.native_asset (codes "KLAY") then 2000000 else 800000

  -- `BuildWormholeTransferTx`
  unfoldable pub build_wormhole_transfer_tx :
      TxBuilder → Task → Transfer → TxInput × Result Failure (Tx eth)
  unfolding wormhole_gas_limit build_wormhole_payload build_evm_tx_with_payload item_asset_config
  build_wormhole_transfer_tx builder t transfer = elim (item_asset_config builder.asset) [
    | err e ↦ (transfer.input, err e)
    | ok asset ↦
        let limited = record transfer.input { gas_limit = wormhole_gas_limit asset } in
        (
          limited,
          (do
            payload ← build_wormhole_payload t (record transfer { input = limited })
            build_evm_tx_with_payload eth builder payload.to payload.value payload.data_bytes
                limited),
        )
  ]

  -- `NewTask`
  unfoldable pub new_task : TxBuilder → Task → Transfer → TxInput × Result Failure (Tx eth)
  unfolding build_task_tx build_proxy_transfer_tx build_wormhole_transfer_tx eq_text
  new_task builder t transfer =
      if eq_text t.code (codes "ProxyTransferTx")
      then build_proxy_transfer_tx builder transfer
      else if eq_text t.code (codes "WormholeTransferTx")
      then build_wormhole_transfer_tx builder t transfer
      else build_task_tx builder t transfer

  -- `NewTransfer`
  unfoldable pub new_transfer : TxBuilder → Transfer → TxInput × Result Failure (Tx eth)
  unfolding new_task new_token_transfer new_native_transfer
  new_transfer builder transfer = elim builder.asset [
    | task t ↦ new_task builder t transfer
    | single (token _ _) ↦ new_token_transfer eth builder transfer.to transfer.amount transfer.input
    | single (native _) ↦ new_native_transfer eth builder transfer.to transfer.amount transfer.input
  ]
