-- ===== src/Tests/Tasks.antt =====
-- Tests of the lookup of tasks by the assets of a path.
use crosschain_enhanced_by_a.Prelude.{List, [], ◌∷◌, none, ◌≡◌}
use crosschain_enhanced_by_a.Prelude.Text.{Text, codes}
use crosschain_enhanced_by_a.Factory.Tasks.{
  PipelineConfig, TaskConfig, get_task_config_by_src_dst_assets,
}
use crosschain_enhanced_by_a.Factory.Tasks.Shared.{get_task_config-independent}
use crosschain_enhanced_by_a.Factory.Tasks.Enriched.{AllEnriched, get_task_config-AllEnriched}

abbrev eth : Text
eth = codes "ETH"

abbrev weth : Text
weth = codes "WETH.ETH"

-- A task that wraps, allowed for one path, and one that no path allows.
abbrev tasks : List (TaskConfig Text)
tasks =
    record {
      name = codes "wrap";
      code = [];
      allow = [];
      signer = [];
      allow_list = record { src = eth; dst = weth } ∷ [];
      src_asset = none;
      dst_asset = none;
    }
    ∷ record {
      name = codes "proxy";
      code = [];
      allow = [];
      signer = [];
      allow_list = [];
      src_asset = none;
      dst_asset = none;
    }
    ∷ []

-- A pipeline of both tasks for the way back.
abbrev pipelines : List PipelineConfig
pipelines =
    record {
      id = codes "back";
      allow = [];
      tasks = codes "proxy" ∷ codes "wrap" ∷ [];
      allow_list = record { src = weth; dst = eth } ∷ [];
    }
    ∷ []

abbrev name_of : Text → Text
name_of a = a

get_task_config-independent_example :
    let before = get_task_config_by_src_dst_assets name_of eth weth pipelines tasks in
    (get_task_config_by_src_dst_assets name_of weth eth pipelines before.0).1
    ≡ (get_task_config_by_src_dst_assets name_of weth eth pipelines tasks).1
get_task_config-independent_example =
    get_task_config-independent name_of eth weth weth eth pipelines tasks

get_task_config-AllEnriched_example :
    let result = get_task_config_by_src_dst_assets name_of weth eth pipelines tasks in
    AllEnriched weth eth result.0 result.1
get_task_config-AllEnriched_example = get_task_config-AllEnriched weth eth name_of pipelines tasks
