-- ===== src/Tests/Factory.antt =====
-- Tests of the lookups of assets and tasks of the factory.
use mathlib.Core.List.Permᴰ.{Permᴰ}
use crosschain_enhanced_by_a.Prelude.{
  ℕ, zero, suc, List, [], ◌∷◌, none, some, ◌≡◌, ◌⊎◌, refl, inl, inr,
}
use crosschain_enhanced_by_a.Prelude.Int.{pos}
use crosschain_enhanced_by_a.Prelude.Text.{Text, codes, eq_text, split, one_of}
use crosschain_enhanced_by_a.Asset.Config.{AssetConfig, empty_config}
use crosschain_enhanced_by_a.Asset.{asset_type}
use crosschain_enhanced_by_a.Asset.Id.{get_asset_id, parse_asset_and_native, is_native}
use crosschain_enhanced_by_a.Factory.Normalize.{normalize_address_string}
use crosschain_enhanced_by_a.Factory.Assets.{
  TokenCell, TaskRef, native, token, Factory, Answer, load, store, id_of, cfg_from_asset,
  from_entry, put_asset_config, cfg_enrich_asset_config, enrich_from,
}
use crosschain_enhanced_by_a.Factory.Assets.Settled.{copy_of}
use crosschain_enhanced_by_a.Factory.Assets.Repeated.{Settles, cfg_from_asset-Settles}
use crosschain_enhanced_by_a.Factory.Assets.Enriched.{Reflects, cfg_from_asset-Reflects}
use crosschain_enhanced_by_a.Factory.Assets.Register.{
  IsKeyed, put_asset_config-IsKeyed, put_asset_config-load,
}
use crosschain_enhanced_by_a.Factory.Assets.Total.{HasChains, cfg_from_asset-Returns}
use crosschain_enhanced_by_a.Factory.Contracts.{
  config_of, matches, find_contract, cfg_from_asset_by_contract, from_contract, from_id,
}
use crosschain_enhanced_by_a.Factory.Contracts.Found.{IsOther}
use crosschain_enhanced_by_a.Factory.Contracts.Orders.{cfg_from_asset_by_contract_permuted}
use crosschain_enhanced_by_a.Factory.Contracts.ChainCoin.{cfg_from_asset_by_contract-forgets}

abbrev pub eth : AssetConfig
eth = record empty_config {
  asset = codes "ETH";
  driver = codes "evm";
  net = codes "mainnet";
  url = codes "https://node";
  chain_id = pos 1;
}

abbrev pub atom : AssetConfig
atom = record empty_config {
  asset = codes "ATOM";
  driver = codes "cosmos";
  chain_coin = codes "uatom";
}

abbrev pub usdc : TokenCell
usdc = record {
  asset = codes "USDC";
  chain = codes "ETH";
  net = codes "testnet";
  decimals = pos 6;
  contract = codes "0xA0B8";
  asset_type = [];
  base = record empty_config {
    asset = codes "USDC";
    chain = codes "ETH";
    contract = codes "0xA0B8";
  };
  native_config = none;
}

abbrev pub cells : ℕ → AssetConfig
cells zero = eth
cells (suc n) = atom

abbrev pub entries : List (Text × TaskRef)
entries = (codes "ETH", native 0) ∷ (codes "ATOM", native 1) ∷ (codes "USDC.ETH", token 0) ∷ []

abbrev pub factory : Factory
factory = record {
  natives = cells;
  tokens = λ n. usdc;
  all_assets = entries;
  all_tasks = [];
  all_pipelines = [];
  get_asset_callback = none;
  get_contract_callback = none;
}

abbrev pub usdc_id : Text
usdc_id = codes "USDC.ETH"

looked_up : (s : Factory × Answer) × (cfg_from_asset copy_of factory usdc_id ≡ some s)
unfolding cfg_from_asset from_entry load cfg_enrich_asset_config enrich_from
looked_up = (_, refl)

cfg_from_asset-Settles_example : Settles copy_of usdc_id looked_up.0
cfg_from_asset-Settles_example =
    cfg_from_asset-Settles copy_of factory usdc_id looked_up.0 (λ t. refl) looked_up.1

load_usdc : load usdc_id factory.all_assets ≡ some (token 0)
unfolding load
load_usdc = refl

load_eth : load (factory.tokens 0).chain factory.all_assets ≡ some (native 0)
unfolding load
load_eth = refl

cfg_from_asset-Reflects_example :
    (g : Factory) × (cfg_from_asset copy_of factory usdc_id ≡ some (g, (token 0, none)))
    × Reflects 0 usdc (g.tokens 0) (g.natives 0)
cfg_from_asset-Reflects_example =
    cfg_from_asset-Reflects copy_of factory usdc_id 0 0 (λ t. refl) load_usdc refl load_eth

keyed : IsKeyed factory
unfolding id_of get_asset_id parse_asset_and_native split is_native asset_type one_of eq_text
keyed = (refl, (refl, (refl, tt)))

put : (s : Factory × Answer) × (put_asset_config copy_of factory (token 0) ≡ some s)
unfolding put_asset_config store id_of cfg_from_asset from_entry load cfg_enrich_asset_config
    enrich_from get_asset_id parse_asset_and_native split is_native asset_type one_of eq_text
put = (_, refl)

put_asset_config-IsKeyed_example : IsKeyed put.0.0
put_asset_config-IsKeyed_example =
    put_asset_config-IsKeyed copy_of factory (token 0) put.0 keyed put.1

cfg_from_asset-Returns_example :
    (s : Factory × Answer) × (cfg_from_asset copy_of factory usdc_id ≡ some s) × HasChains s.0
unfolding load
cfg_from_asset-Returns_example = cfg_from_asset-Returns copy_of factory usdc_id (tt, (tt, (tt, tt)))

visited :
    (load (codes "ETH") entries ≡ some (native 0))
    × (load (codes "ATOM") entries ≡ some (native 1))
    × (load usdc_id entries ≡ some (token 0))
unfolding load
visited = (refl, refl, refl)

abbrev turned : List (Text × TaskRef)
turned = (codes "ATOM", native 1) ∷ (codes "ETH", native 0) ∷ (codes "USDC.ETH", token 0) ∷ []

cfg_from_asset_by_contract_permuted_example :
    cfg_from_asset_by_contract copy_of entries factory (codes "0xa0b8") (codes "ETH")
    ≡ cfg_from_asset_by_contract copy_of turned factory (codes "0xa0b8") (codes "ETH")
unfolding config_of matches normalize_address_string
cfg_from_asset_by_contract_permuted_example =
    cfg_from_asset_by_contract_permuted copy_of factory (codes "0xa0b8") (codes "ETH") (token 0)
      entries turned (Permᴰ.swap refl refl)
      ((eth, refl, inl refl), ((atom, refl, inl refl), ((usdc.base, refl, inr refl), tt)))

abbrev uatom : Text
uatom = codes "uatom"

by_coin :
    (s : Factory × Answer) × (cfg_from_asset_by_contract copy_of entries factory uatom
        (codes "ATOM")
      ≡ some s)
unfolding cfg_from_asset_by_contract from_contract from_id find_contract config_of matches id_of
    cfg_from_asset from_entry load normalize_address_string get_asset_id parse_asset_and_native
    split is_native asset_type one_of eq_text
by_coin = (_, refl)

found_by_coin :
    find_contract factory (normalize_address_string uatom (codes "ATOM")) (codes "ATOM") entries
    ≡ some (some (native 1))
unfolding find_contract config_of matches normalize_address_string
found_by_coin = refl

cfg_from_asset_by_contract-forgets_example :
    IsOther by_coin.0.0
      (normalize_address_string uatom (codes "ATOM"))
      (codes "ATOM")
      (codes "ATOM", native 1)
unfolding normalize_address_string
cfg_from_asset_by_contract-forgets_example =
    cfg_from_asset_by_contract-forgets copy_of factory 1 entries (codes "ATOM") uatom (codes "ATOM")
      by_coin.0 visited.1 keyed.1.0 refl refl found_by_coin by_coin.1

put_asset_config-load_example :
    (id : Text) × (id_of factory (token 0) ≡ some id)
    × (load id put.0.0.all_assets ≡ some (token 0))
    × ((id ≡ codes "ETH") ⊎ (load (codes "ETH") put.0.0.all_assets ≡ load (codes "ETH") entries))
put_asset_config-load_example =
    put_asset_config-load copy_of factory (token 0) put.0 (codes "ETH") put.1
