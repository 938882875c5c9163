-- ===== src/Factory/Destinations.antt =====
-- factory/main.go: `cfgEnrichDestinations`. Each destination comes with the order in which the assets
-- are visited for it, as for `cfgFromAssetByContract`. `none` is a panic.
pub mod Known
use crosschain_enhanced_by_a.Prelude.{
  ℕ, Bool, true, false, List, [], ◌∷◌, map, Option, none, some, if◌then◌else◌,
}
use crosschain_enhanced_by_a.Prelude.Int.{ℤ}
use crosschain_enhanced_by_a.Prelude.Text.{Text, is_empty}
use crosschain_enhanced_by_a.Asset.Config.{AssetConfig, empty_config}
use crosschain_enhanced_by_a.Factory.Assets.{
  TokenCell, TaskRef, native, token, task, new_native, new_token, nil, AssetError, Answer, Factory,
}
use crosschain_enhanced_by_a.Factory.Contracts.{config_of, cfg_from_asset_by_contract}

-- A `*AssetConfig`: to the cell of a native asset, to a configuration of its own, or nil.
pub data ConfigRef : Type 0 where
  cell : ℕ → ConfigRef
  own : AssetConfig → ConfigRef
  nowhere : ConfigRef

-- `TxInfoEndpoint`
pub record Destination : Type 0 where
  pub address : Text
  pub contract_address : Text
  pub amount : ℤ
  pub native_asset : Text
  pub asset : Text
  pub asset_config : ConfigRef

abbrev pub cell_or_nil : Option ℕ → ConfigRef
cell_or_nil none = nowhere
cell_or_nil (some i) = cell i

-- `GetNativeAsset` of an item; nil has none.
unfoldable pub native_of : Factory → TaskRef → Option ConfigRef
native_of f (native i) = some (cell i)
native_of f (token i) = some (cell_or_nil (f.tokens i).native_config)
native_of f (task name src) = native_of f src
native_of f new_native = some (own empty_config)
native_of f new_token = some nowhere
native_of f nil = none

-- A destination whose contract is the asset of a configuration.
abbrev pub with_asset : Destination → Option AssetConfig → Option Destination
with_asset dst none = none
with_asset dst (some cfg) =
    some (record dst { asset = cfg.asset; contract_address = cfg.contract; asset_config = own cfg })

abbrev pub at_state : Factory → Option Destination → Option (Factory × Destination)
at_state f none = none
at_state f (some dst) = some (f, dst)

-- What follows the lookup of the contract; the destination is left as it is on an error.
unfoldable pub with_answer :
    Destination → Option (Factory × Answer) → Option (Factory × Destination)
unfolding config_of
with_answer dst none = none
with_answer dst (some (f, (item, some e))) = some (f, dst)
with_answer dst (some (f, (item, none))) = at_state f (with_asset dst (config_of f item))

module _ (copied : TokenCell → AssetConfig) (native_asset : Text) (native_cfg : ConfigRef) where
  -- One round of the loop.
  unfoldable pub enrich_destination :
      Factory → List (Text × TaskRef) → Destination → Option (Factory × Destination)
  unfolding with_answer cfg_from_asset_by_contract
  enrich_destination f order dst =
      let placed = record dst { native_asset = native_asset } in
      let looked_up =
        with_answer placed
          (cfg_from_asset_by_contract copied order f dst.contract_address native_asset) in
      if is_empty dst.contract_address
      then some (f, record placed { asset_config = native_cfg })
      else looked_up

  -- The loop.
  unfoldable pub enrich_destinations :
      Factory → List (List (Text × TaskRef) × Destination) → Option (Factory × List Destination)
  unfolding enrich_destination
  enrich_destinations f [] = some (f, [])
  enrich_destinations f ((order, dst) ∷ ds) = elim (enrich_destination f order dst) [
    | none ↦ none
    | some (g, d) ↦ elim (enrich_destinations g ds) [
      | none ↦ none
      | some (h, later) ↦ some (h, d ∷ later)
    ]
  ]

module _ (copied : TokenCell → AssetConfig) where
  abbrev pub on_activity :
      Factory
      → Option AssetConfig
      → Option ConfigRef
      → List (List (Text × TaskRef) × Destination)
      → Option (Factory × List Destination)
  on_activity f none r ds = none
  on_activity f (some cfg) none ds = none
  on_activity f (some cfg) (some r) ds = enrich_destinations copied cfg.native_asset r f ds

  -- `cfgEnrichDestinations`, on the destinations of a transaction
  unfoldable pub cfg_enrich_destinations :
      Factory
      → TaskRef
      → List (List (Text × TaskRef) × Destination)
      → Option (Factory × List Destination)
  unfolding enrich_destinations config_of native_of
  cfg_enrich_destinations f activity ds =
      on_activity f (config_of f activity) (native_of f activity) ds
