-- ===== src/Tests/Lookups.antt =====
-- Tests of the lookups of tasks by name and of the enrichment of destinations.
use crosschain_enhanced_by_a.Prelude.{List, [], ◌∷◌, none, some, ◌≡◌, refl, ◌⊎◌}
use crosschain_enhanced_by_a.Prelude.Int.{pos}
use crosschain_enhanced_by_a.Prelude.Text.{Text, codes, split, one_of}
use crosschain_enhanced_by_a.Asset.Config.{AssetConfig, empty_config}
use crosschain_enhanced_by_a.Asset.{asset_type}
use crosschain_enhanced_by_a.Asset.Id.{get_asset_id, parse_asset_and_native, is_native}
use crosschain_enhanced_by_a.Factory.Tasks.{TaskConfig, find_task}
use crosschain_enhanced_by_a.Factory.Assets.{
  TaskRef, native, Factory, load, id_of, cfg_from_asset, from_entry,
}
use crosschain_enhanced_by_a.Factory.Assets.Settled.{copy_of}
use crosschain_enhanced_by_a.Factory.Contracts.{
  config_of, matches, find_contract, cfg_from_asset_by_contract, from_contract, from_id,
}
use crosschain_enhanced_by_a.Factory.Lookup.{
  Reply, allowed_dst, enrich_src, enrich_task, by_task_name, cfg_from_task, tasks_for, find_named,
  from_path, by_path, or_by_path, cfg_from_task_by_name_src_dst_asset_ids,
}
use crosschain_enhanced_by_a.Factory.Lookup.Granted.{IsGranted, cfg_from_task-IsGranted}
use crosschain_enhanced_by_a.Factory.Lookup.Named.{IsByPath, by_name-IsByPath}
use crosschain_enhanced_by_a.Factory.Destinations.{
  ConfigRef, nowhere, Destination, native_of, with_answer, enrich_destination, enrich_destinations,
  cfg_enrich_destinations,
}
use crosschain_enhanced_by_a.Factory.Destinations.Known.{
  ArePlaced, cfg_enrich_destinations-ArePlaced,
}
use crosschain_enhanced_by_a.Tests.Factory.{factory, entries, usdc_id}

abbrev eth_id : Text
eth_id = codes "ETH"

-- A task that is allowed from one asset to another.
abbrev swap : TaskConfig TaskRef
swap = record {
  name = codes "swap";
  code = [];
  allow = [];
  signer = [];
  allow_list = record { src = eth_id; dst = usdc_id } ∷ [];
  src_asset = none;
  dst_asset = none;
}

abbrev with_tasks : Factory
with_tasks = record factory { all_tasks = swap ∷ [] }

granted : (s : Factory × Reply) × (cfg_from_task copy_of with_tasks (codes "swap") eth_id ≡ some s)
unfolding cfg_from_task by_task_name enrich_task enrich_src allowed_dst find_task cfg_from_asset
    from_entry load get_asset_id parse_asset_and_native split is_native asset_type one_of
granted = (_, refl)

cfg_from_task-IsGranted_example :
    IsGranted copy_of with_tasks (codes "swap") (get_asset_id eth_id []) granted.0
unfolding granted
cfg_from_task-IsGranted_example =
    cfg_from_task-IsGranted copy_of with_tasks (codes "swap") eth_id granted.0 refl granted.1 refl

-- The name is found in any case on the path, but not by `cfgFromTask`.
by_name :
    (s : Factory × Reply) × (cfg_from_task_by_name_src_dst_asset_ids copy_of with_tasks
        (codes "SWAP")
        eth_id
        usdc_id
      ≡ some s)
unfolding cfg_from_task_by_name_src_dst_asset_ids or_by_path by_path from_path tasks_for find_named
    cfg_from_task by_task_name find_task cfg_from_asset from_entry load get_asset_id
    parse_asset_and_native split is_native asset_type one_of
by_name = (_, refl)

by_name-IsByPath_example :
    (cfg_from_task copy_of with_tasks (codes "SWAP") eth_id ≡ some by_name.0)
    ⊎ IsByPath copy_of with_tasks (codes "SWAP") eth_id usdc_id by_name.0
unfolding by_name
by_name-IsByPath_example =
    by_name-IsByPath copy_of with_tasks (codes "SWAP") eth_id usdc_id by_name.0 refl by_name.1 refl

abbrev payment : Text → Destination
payment contract = record {
  address = codes "0x11";
  contract_address = contract;
  amount = pos 5;
  native_asset = [];
  asset = [];
  asset_config = nowhere;
}

abbrev chain : AssetConfig
chain = record empty_config { asset = eth_id; native_asset = eth_id; chain = eth_id }

abbrev placed_factory : Factory
placed_factory = record factory { natives = λ n. chain }

abbrev payments : List (List (Text × TaskRef) × Destination)
payments =
    (entries, payment [])
    ∷ (entries, payment (codes "0xA0B8"))
    ∷ (entries, payment (codes "0xff"))
    ∷ []

placed :
    (s : Factory × List Destination) × (cfg_enrich_destinations copy_of placed_factory
        (native 0)
        payments
      ≡ some s)
unfolding cfg_enrich_destinations enrich_destinations enrich_destination with_answer native_of
    cfg_from_asset_by_contract from_contract from_id find_contract config_of matches id_of
    cfg_from_asset from_entry load get_asset_id parse_asset_and_native split is_native asset_type
    one_of
placed = (_, refl)

cfg_enrich_destinations-ArePlaced_example :
    (cfg : AssetConfig) × (r : ConfigRef) × (config_of placed_factory (native 0) ≡ some cfg)
    × (native_of placed_factory (native 0) ≡ some r)
    × ArePlaced copy_of cfg.native_asset r placed_factory payments placed.0.0 placed.0.1
cfg_enrich_destinations-ArePlaced_example =
    cfg_enrich_destinations-ArePlaced copy_of placed_factory (native 0) payments placed.0 placed.1
