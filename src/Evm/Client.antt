-- ===== src/Evm/Client.antt =====
-- chain/evm/client.go: the prices and the nonce of a transfer. The answers of the node are arguments, and
-- so is the arithmetic of float64.
pub mod Prices
use crosschain_enhanced_by_a.Prelude.{
  ℕ, ◌+◌, ◌*◌, ◌%◌, ◌^◌, ◌≤◌, ◌⊎◌, Bool, true, false, List, [], Option, none, some, Result, ok, err,
  ◌>>=◌, >>=-eq-ok, ok_injective, if◌then◌else◌, ◌==◌, ltb, ◌≡◌, refl, sym, ap, ◌∙◌, arith, subst,
  Bool-cases, inl, inr,
}
use crosschain_enhanced_by_a.Prelude.Int.{ℤ, pos}
use crosschain_enhanced_by_a.Prelude.Text.{Text, codes, eq_text, is_empty}
use crosschain_enhanced_by_a.Asset.Config.{AssetConfig}
use crosschain_enhanced_by_a.Evm.{Eth, TxInput, Failure}
use crosschain_enhanced_by_a.Evm.Address.{hex_to_address}

-- The conversions of a multiplier, which is its 64-bit pattern.
pub record Floats : Type 0 where
  -- `multiplier > 0.0`, and the constant 2.0
  pub positive : ℕ → Bool
  pub two : ℕ
  -- `(uint64)((float64)(n) * multiplier)`
  pub scaled : ℕ → ℕ → ℕ

-- What the node and the callback answer; an error is `none`. The latest header may have no base fee.
pub record Node : Type 0 where
  pub estimate_gas_func : Option (Text → Option ℤ)
  pub suggest_gas_price : Option ℕ
  pub latest_base_fee : Option (Option ℕ)
  pub nonce_at : List ℕ → Option ℕ

-- `Client`, as far as it is read, with the signer of the asset's task; empty without one.
pub record Client : Type 0 where
  pub native_asset : AssetConfig
  pub task_signer : Text
  pub legacy : Bool

abbrev pub default_gas_price : ℕ
default_gas_price = 20000000000

abbrev pub default_gas_tip : ℕ
default_gas_tip = 3000000000

-- The base fee that the node answers, 0 on an error. A header without a base fee panics.
unfoldable pub base_fee : Client → Node → Result Failure ℕ
base_fee client node =
    if client.legacy
    then (elim node.suggest_gas_price [ none ↦ ok 0 | some price ↦ ok price ])
    else (elim node.latest_base_fee [
      | none ↦ ok 0
      | some none ↦ err Failure.panic
      | some (some fee) ↦ ok fee
    ])

-- `EstimateGas` without a callback that answers.
unfoldable pub estimate_by_node : Floats → Client → Node → Result Failure ℤ
unfolding base_fee eq_text
estimate_by_node floats client node =
    let multiplier =
      if floats.positive client.native_asset.chain_gas_multiplier
      then client.native_asset.chain_gas_multiplier
      else floats.two in
    if eq_text client.native_asset.native_asset (codes "KLAY")
    then ok (pos 250000000000)
    else (base_fee client node >>= λ fee. ok (
        pos (
          floats.scaled
            (((if ltb fee default_gas_price then default_gas_price else fee) + default_gas_tip)
              % 2 ^ 64)
            multiplier)))

-- `EstimateGas`: an error of the callback falls back to the node.
unfoldable pub estimate_gas : Floats → Client → Node → Result Failure ℤ
unfolding estimate_by_node
estimate_gas floats client node =
    let by_node = estimate_by_node floats client node in
    elim node.estimate_gas_func [
      | none ↦ by_node
      | some callback ↦ elim (callback client.native_asset.native_asset) [
        | none ↦ by_node
        | some price ↦ ok price
      ]
    ]

-- The tip: the configuration is in gwei.
unfoldable pub gas_tip : AssetConfig → ℤ
gas_tip config =
    if config.chain_gas_tip == 0 then pos default_gas_tip else pos (config.chain_gas_tip * 10 ^ 9)

-- `FetchTxInput`, from the sender
unfoldable pub fetch_tx_input : Eth → Floats → Client → Node → Text → Result Failure TxInput
unfolding estimate_gas gas_tip hex_to_address
fetch_tx_input eth floats client node from = do
  address ← hex_to_address eth (if is_empty client.task_signer then from else client.task_signer)
  nonce ← elim (node.nonce_at address) [ none ↦ err Failure.rpc | some n ↦ ok n ]
  price ← if client.native_asset.no_gas_fees then ok (pos 0) else estimate_gas floats client node
  ok (record {
    nonce = nonce;
    gas_limit = 0;
    gas_tip_cap = if client.native_asset.no_gas_fees then pos 0 else gas_tip client.native_asset;
    gas_fee_cap = price;
    gas_price = price;
    params = [];
  })
