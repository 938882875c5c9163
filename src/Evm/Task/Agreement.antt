-- ===== src/Evm/Task/Agreement.antt =====
-- chain/evm/task.go, chain/evm/builder.go: a task whose operation is the ERC20 transfer against
-- `NewTokenTransfer`, and the gas limits of all transfers.
use crosschain_enhanced_by_a.Prelude.{
  ℕ, ◌≤◌, Bool, [], ◌∷◌, some, ok, ◌>>=◌, ◌≡◌, refl, arith, Bool-cases, inl, inr,
}
use crosschain_enhanced_by_a.Prelude.Int.{pos}
use crosschain_enhanced_by_a.Prelude.Text.{Text, codes, eq_text}
use crosschain_enhanced_by_a.Asset.Config.{AssetConfig}
use crosschain_enhanced_by_a.Evm.{Eth, TxInput}
use crosschain_enhanced_by_a.Evm.Address.{hex_to_address, trim_prefixes}
use crosschain_enhanced_by_a.Evm.Number.{hex_decode, hex_value}
use crosschain_enhanced_by_a.Evm.Item.{
  AssetItem, Setting, Param, Operation, Task, Item, unset, single, task, native, token,
  get_asset_config, item_asset_config,
}
use crosschain_enhanced_by_a.Evm.Builder.{
  TxBuilder, method_id, build_erc20_payload, native_gas_limit, token_gas_limit,
}
use crosschain_enhanced_by_a.Evm.Builder.ReadBack.{transfer_id}
use crosschain_enhanced_by_a.Evm.Task.{Transfer, Decimals, build_task_payload}
use crosschain_enhanced_by_a.Evm.Task.Send.{
  task_gas_limit, wormhole_gas_limit, build_task_tx, build_wormhole_transfer_tx, new_task,
  new_transfer,
}

-- A parameter that is bound, of any name and type.
abbrev pub bound_param : Text → Text → Text → Setting → Param
bound_param bind kind matching value = record {
  kind = kind;
  bind = bind;
  matching = matching;
  value = value;
}

-- The operation of an ERC20 transfer, to the contract of the asset.
abbrev pub transfer_operation : Param → Param → Operation
transfer_operation to amount = record {
  signature = codes "a9059cbb";
  contract = unset;
  params = to ∷ amount ∷ [];
}

abbrev WithinLimits : ℕ → Type 0
WithinLimits n = (90000 ≤ n) × (n ≤ 20000000)

-- An input whose gas limit is within the bounds of all transfers.
abbrev pub Limited : TxInput → Type 0
Limited input = (90000 ≤ input.gas_limit) × (input.gas_limit ≤ 20000000)

module _ (eth : Eth) (decimals : Decimals) where
  -- A task of one operation with the method a9059cbb, no contract of its own, and two parameters bound
  -- to the recipient and to the amount, has the payload of a token transfer, sent to the contract of
  -- its asset with no value, where the text of the recipient has no prefix to remove and the method of
  -- the token transfer is a9059cbb.
  pub build_task_payload-erc20 :
      (t : Task) (src : AssetItem) (transfer : Transfer) (k k' m m' : Text) (v v' : Setting)
      → t.src_asset ≡ some src
      → t.operations
        ≡ transfer_operation
            (bound_param (codes "to") k m v)
            (bound_param (codes "amount") k' m' v')
          ∷ []
      → trim_prefixes transfer.to ≡ transfer.to
      → method_id eth (codes "transfer(address,uint256)") ≡ transfer_id
      → build_task_payload eth decimals t transfer ≡ (
          build_erc20_payload eth transfer.to transfer.amount >>= λ bytes.
          ok (record { to = (get_asset_config src).contract; value = pos 0; data_bytes = bytes }))
  unfolding build_task_payload build_erc20_payload hex_to_address hex_decode hex_value
  build_task_payload-erc20 t src transfer k k' m m' v v' from operations bare method =
      rw (from, operations, bare, method) refl

  native_limits : (asset : AssetConfig) → WithinLimits (native_gas_limit asset)
  native_limits asset = unfold native_gas_limit in ground arith

  token_limits : (asset : AssetConfig) → WithinLimits (token_gas_limit asset)
  token_limits asset = unfold token_gas_limit in ground arith

  task_limits : (asset : AssetConfig) → WithinLimits (task_gas_limit eth decimals asset)
  task_limits asset = unfold task_gas_limit in ground arith

  wormhole_limits : (asset : AssetConfig) → WithinLimits (wormhole_gas_limit eth decimals asset)
  wormhole_limits asset = unfold wormhole_gas_limit in ground arith

  new_task-Limited :
      (builder : TxBuilder) (t : Task) (transfer : Transfer) {asset : AssetConfig}
      → item_asset_config builder.asset ≡ ok asset
      → Limited (new_task eth decimals builder t transfer).0
  unfolding new_task
  new_task-Limited builder t transfer {asset} configured =
      elim (Bool-cases (eq_text t.code (codes "ProxyTransferTx"))) [
        | inl is ↦ rw (new_task, is) (omega arith, omega arith)
        | inr other ↦ elim (Bool-cases (eq_text t.code (codes "WormholeTransferTx"))) [
          | inl is ↦
              rw (new_task, other, is, build_wormhole_transfer_tx, configured)
                (wormhole_limits asset)
          | inr else_ ↦ rw (new_task, other, else_, build_task_tx, configured) (task_limits asset)
        ]
      ]

  item-Limited :
      (item : Item) (legacy : Bool) (transfer : Transfer) {asset : AssetConfig}
      → item_asset_config item ≡ ok asset
      → Limited (new_transfer eth decimals (record { asset = item; legacy = legacy }) transfer).0
  unfolding new_transfer
  item-Limited (single (native c)) legacy transfer configured = native_limits c
  item-Limited (single (token c price)) legacy transfer configured = token_limits c.base
  item-Limited (task t) legacy transfer configured =
      new_task-Limited (record { asset = task t; legacy = legacy }) t transfer configured

  -- The gas limit that a transfer or a task leaves in its input is between 90000 and 20000000,
  -- whatever it was before, where the item has a configuration.
  pub new_transfer-Limited :
      (builder : TxBuilder) (transfer : Transfer) {asset : AssetConfig}
      → item_asset_config builder.asset ≡ ok asset
      → Limited (new_transfer eth decimals builder transfer).0
  new_transfer-Limited builder transfer configured =
      item-Limited builder.asset builder.legacy transfer configured
