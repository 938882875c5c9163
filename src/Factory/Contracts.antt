-- ===== src/Factory/Contracts.antt =====
-- factory/main.go: `cfgFromAssetByContract`. `AllAssets.Range` visits the registered items in an order
-- that it does not promise, so the order is an argument. `none` is a panic.
pub mod Found
pub mod Orders
pub mod ChainCoin
use crosschain_enhanced_by_a.Prelude.{
  Bool, true, false, ◌&&◌, List, [], ◌∷◌, Option, none, some, if◌then◌else◌,
}
use crosschain_enhanced_by_a.Prelude.Text.{Text, eq_text}
use crosschain_enhanced_by_a.Asset.Config.{AssetConfig, empty_config}
use crosschain_enhanced_by_a.Factory.Normalize.{normalize_address_string}
use crosschain_enhanced_by_a.Factory.Assets.{
  TokenCell, TaskRef, native, token, task, new_native, new_token, nil, AssetError, Answer, Factory,
  id_of, cfg_from_asset, invalid_contract,
}

-- `GetAssetConfig` of an item; nil has none.
unfoldable pub config_of : Factory → TaskRef → Option AssetConfig
config_of f (native i) = some (f.natives i)
config_of f (token i) = some (f.tokens i).base
config_of f (task name src) = config_of f src
config_of f new_native = some empty_config
config_of f new_token = some empty_config
config_of f nil = none

-- The test of the loop, for a normalized contract.
unfoldable pub matches : Text → Text → AssetConfig → Bool
unfolding eq_text normalize_address_string
matches contract native_asset cfg =
    if eq_text cfg.chain native_asset
    then eq_text (normalize_address_string cfg.contract native_asset) contract
    else eq_text cfg.asset native_asset && eq_text cfg.chain_coin contract

-- One round of the loop, from the configuration of the item and the rounds that may follow.
abbrev pub visit :
    Text → Text → TaskRef → Option AssetConfig → Option (Option TaskRef) → Option (Option TaskRef)
visit contract native_asset item none later = none
visit contract native_asset item (some cfg) later =
    if matches contract native_asset cfg then some (some item) else later

-- The loop, over the items in the order in which they are visited.
unfoldable pub find_contract :
    Factory → Text → Text → List (Text × TaskRef) → Option (Option TaskRef)
unfolding config_of
find_contract f contract native_asset [] = some none
find_contract f contract native_asset (e ∷ es) =
    let later = find_contract f contract native_asset es in
    visit contract native_asset e.1 (config_of f e.1) later

abbrev pub ask_contract_callback :
    Factory → Text → Text → Option (Text → Text → Answer) → Option (Factory × Answer)
ask_contract_callback f contract native_asset none =
    some (f, (new_token, some (invalid_contract contract)))
ask_contract_callback f contract native_asset (some callback) =
    some (f, callback contract native_asset)

module _ (copied : TokenCell → AssetConfig) where
  -- `f.cfgFromAsset(res.ID())`
  unfoldable pub from_id : Factory → Option Text → Option (Factory × Answer)
  from_id f none = none
  from_id f (some id) = cfg_from_asset copied f id

  -- What follows the loop.
  unfoldable pub from_contract :
      Factory → Text → Text → Option (Option TaskRef) → Option (Factory × Answer)
  unfolding from_id id_of
  from_contract f contract native_asset none = none
  from_contract f contract native_asset (some none) =
      ask_contract_callback f contract native_asset f.get_contract_callback
  from_contract f contract native_asset (some (some item)) = from_id f (id_of f item)

  -- `cfgFromAssetByContract`
  unfoldable pub cfg_from_asset_by_contract :
      List (Text × TaskRef) → Factory → Text → Text → Option (Factory × Answer)
  unfolding from_contract find_contract normalize_address_string
  cfg_from_asset_by_contract order f raw native_asset =
      let contract = normalize_address_string raw native_asset in
      from_contract f contract native_asset (find_contract f contract native_asset order)
