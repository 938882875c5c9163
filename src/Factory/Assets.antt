-- ===== src/Factory/Assets.antt =====
-- factory/main.go: the configured assets, `cfgFromAsset`, `cfgEnrichAssetConfig`, `PutAssetConfig` and
-- the callbacks. A `*NativeAssetConfig` and a `*TokenAssetConfig` are addresses of cells, since a
-- lookup writes to the cell that every holder of the pointer reads. `none` is a panic.
pub mod Cells
pub mod Settled
pub mod Enriched
pub mod Total
pub mod Register
pub mod Keeps
pub mod Repeated
use crosschain_enhanced_by_a.Prelude.{
  ℕ, Bool, List, [], ◌∷◌, Option, none, some, ◌≡◌, ◌==◌, if◌then◌else◌,
}
use crosschain_enhanced_by_a.Prelude.Int.{ℤ}
use crosschain_enhanced_by_a.Prelude.Text.{Text, codes, eq_text, is_empty}
use crosschain_enhanced_by_a.Asset.Config.{AssetConfig}
use crosschain_enhanced_by_a.Asset.Id.{get_asset_id}
use crosschain_enhanced_by_a.Factory.Tasks.{TaskConfig, PipelineConfig}

-- `TokenAssetConfig` in memory: the embedded `AssetConfig` is `base`, and `native_config` is the
-- address that the pointer `NativeAssetConfig` holds.
pub record TokenCell : Type 0 where
  pub asset : Text
  pub chain : Text
  pub net : Text
  pub decimals : ℤ
  pub contract : Text
  pub asset_type : Text
  pub base : AssetConfig
  pub native_config : Option ℕ

-- `ITask`: a pointer to a native asset or to a token, a task with its name and its source asset, the
-- pointers to empty configurations that come with an error, and nil. A caller that registers an empty
-- configuration gives it a cell, and passes `native` or `token` of its address.
pub data TaskRef : Type 0 where
  native token : ℕ → TaskRef
  task : Text → TaskRef → TaskRef
  new_native new_token nil : TaskRef

-- The errors of the lookups of assets.
pub data AssetError : Type 0 where
  not_found invalid_asset invalid_contract unsupported_native callback_error : Text → AssetError

-- An item next to an error: both are returned.
abbrev pub Answer : Type 0
Answer = TaskRef × Option AssetError

-- `Factory`, with the memory of the assets.
pub record Factory : Type 0 where
  pub natives : ℕ → AssetConfig
  pub tokens : ℕ → TokenCell
  pub all_assets : List (Text × TaskRef)
  pub all_tasks : List (TaskConfig TaskRef)
  pub all_pipelines : List PipelineConfig
  pub get_asset_callback : Option (Text → Answer)
  pub get_contract_callback : Option (Text → Text → Answer)

abbrev pub update {ℓ} : {A : Type ℓ} → (ℕ → A) → ℕ → A → ℕ → A
update f i v j = if j == i then v else f j

abbrev pub set_native : Factory → ℕ → AssetConfig → Factory
set_native f i cfg = record f { natives = update f.natives i cfg }

abbrev pub set_token : Factory → ℕ → TokenCell → Factory
set_token f i cfg = record f { tokens = update f.tokens i cfg }

-- `AllAssets.Load`
unfoldable pub load : Text → List (Text × TaskRef) → Option TaskRef
unfolding eq_text
load id [] = none
load id (e ∷ es) = let later = load id es in if eq_text e.0 id then some e.1 else later

-- `AllAssets.Store`
unfoldable pub store : Text → TaskRef → List (Text × TaskRef) → List (Text × TaskRef)
unfolding eq_text
store id item [] = (id, item) ∷ []
store id item (e ∷ es) =
    let later = e ∷ store id item es in if eq_text e.0 id then (id, item) ∷ es else later

-- `ID` of an item; nil has none.
unfoldable pub id_of : Factory → TaskRef → Option Text
id_of f (native i) = some (get_asset_id [] (f.natives i).asset)
id_of f (token i) = some (get_asset_id (f.tokens i).asset (f.tokens i).chain)
id_of f (task name src) = some name
id_of f new_native = some (get_asset_id [] [])
id_of f new_token = some (get_asset_id [] [])
id_of f nil = none

abbrev pub token_type : Text
token_type = codes "token"

-- What a lookup of a native asset writes to it.
abbrev pub as_native : AssetConfig → AssetConfig
as_native cfg = record cfg {
  asset_type = codes "native";
  chain = cfg.asset;
  native_asset = cfg.asset;
}

-- The type of a token and its chain, in both of its configurations.
abbrev pub as_token : TokenCell → TokenCell
as_token cfg = record cfg {
  asset_type = token_type;
  base = record cfg.base { asset_type = token_type; native_asset = cfg.chain };
}

abbrev pub or_text : Text → Text → Text
or_text [] other = other
or_text (x ∷ s) other = x ∷ s

-- The native asset of a chain, which is set where it is empty.
abbrev pub with_native_asset : AssetConfig → AssetConfig
with_native_asset chain = record chain { native_asset = or_text chain.native_asset chain.asset }

-- The deprecated fields. The token's own `Net` hides the one of its `AssetConfig`.
abbrev pub with_chain : AssetConfig → ℕ → TokenCell → TokenCell
with_chain chain n cfg = record cfg {
  net = chain.net;
  native_config = some n;
  base = record cfg.base {
    driver = chain.driver;
    url = chain.url;
    fcd_url = chain.fcd_url;
    auth = chain.auth;
    auth_secret = chain.auth_secret;
    provider = chain.provider;
    chain_id = chain.chain_id;
    chain_id_str = chain.chain_id_str;
    chain_gas_multiplier = chain.chain_gas_multiplier;
    explorer_url = chain.explorer_url;
    no_gas_fees = chain.no_gas_fees;
    gas_coin = chain.gas_coin;
    chain_prefix = chain.chain_prefix;
  };
}

-- The rest of `cfgEnrichAssetConfig`, from what is registered for the chain.
unfoldable pub enrich_from :
    Factory → ℕ → TokenCell → Option TaskRef → Option (Factory × Option AssetError)
enrich_from f i cfg none = some (set_token f i cfg, some (unsupported_native cfg.chain))
enrich_from f i cfg (some (native n)) = some (
  set_native (set_token f i (with_chain (f.natives n) n cfg)) n (with_native_asset (f.natives n)),
  none,
)
enrich_from f i cfg (some _) = none

-- `cfgEnrichAssetConfig`, on the token at an address.
unfoldable pub cfg_enrich_asset_config : Factory → ℕ → Option (Factory × Option AssetError)
unfolding enrich_from load
cfg_enrich_asset_config f i =
    let cfg = f.tokens i in
    if is_empty cfg.chain
    then some (f, some (unsupported_native []))
    else enrich_from f i (as_token cfg) (load cfg.chain f.all_assets)

-- The item of a token, whose error in the enrichment is ignored.
abbrev pub with_item : TaskRef → Option (Factory × Option AssetError) → Option (Factory × Answer)
with_item item none = none
with_item item (some (f, e)) = some (f, (item, none))

abbrev pub ask_callback : Factory → Text → Option (Text → Answer) → Option (Factory × Answer)
ask_callback f id none = some (f, (new_native, some (not_found id)))
ask_callback f id (some callback) = some (f, callback id)

-- `copier.CopyWithOption(&cfg.AssetConfig, &cfg, ...)`: what it leaves in `cfg.AssetConfig`.
module _ (copied : TokenCell → AssetConfig) where
  unfoldable pub from_entry : Factory → Text → Option TaskRef → Option (Factory × Answer)
  unfolding cfg_enrich_asset_config
  from_entry f id none = ask_callback f id f.get_asset_callback
  from_entry f id (some (native i)) =
      some (set_native f i (as_native (f.natives i)), (native i, none))
  from_entry f id (some (token i)) = with_item (token i) (
      cfg_enrich_asset_config (set_token f i (record (f.tokens i) { base = copied (f.tokens i) }))
        i)
  from_entry f id (some _) = some (f, (new_native, some (invalid_asset id)))

  -- `cfgFromAsset`
  unfoldable pub cfg_from_asset : Factory → Text → Option (Factory × Answer)
  unfolding from_entry load
  cfg_from_asset f id = from_entry f id (load id f.all_assets)

  abbrev put_under : Factory → TaskRef → Option Text → Option (Factory × Answer)
  put_under f item none = none
  put_under f item (some id) =
      cfg_from_asset (record f { all_assets = store id item f.all_assets }) id

  -- `PutAssetConfig`
  unfoldable pub put_asset_config : Factory → TaskRef → Option (Factory × Answer)
  unfolding cfg_from_asset store id_of
  put_asset_config f item = put_under f item (id_of f item)

  -- `GetAssetConfig`
  unfoldable pub get_asset_config : Factory → Text → Text → Option (Factory × Answer)
  unfolding cfg_from_asset
  get_asset_config f asset native_asset = cfg_from_asset f (get_asset_id asset native_asset)

-- `RegisterGetAssetConfigCallback` and `UnregisterGetAssetConfigCallback`
unfoldable pub register_asset_callback : Factory → (Text → Answer) → Factory
register_asset_callback f callback = record f { get_asset_callback = some callback }

unfoldable pub unregister_asset_callback : Factory → Factory
unregister_asset_callback f = record f { get_asset_callback = none }

-- `RegisterGetAssetConfigByContractCallback` and its counterpart
unfoldable pub register_contract_callback : Factory → (Text → Text → Answer) → Factory
register_contract_callback f callback = record f { get_contract_callback = some callback }

unfoldable pub unregister_contract_callback : Factory → Factory
unregister_contract_callback f = record f { get_contract_callback = none }
