-- ===== src/Factory/Lookup.antt =====
-- factory/main.go: the lookups of tasks by name, `cfgFromTask`, `cfgFromTaskByNameSrcDstAssetIDs` and
-- `cfgFromMultiAsset`, over the state of the factory. `none` is a panic.
pub mod Allowed
pub mod Granted
pub mod Named
use crosschain_enhanced_by_a.Prelude.{
  ℕ, Bool, true, false, List, [], ◌∷◌, map, Option, none, some, if◌then◌else◌, get_elem?,
}
use crosschain_enhanced_by_a.Prelude.Text.{Text, codes, eq_text, equal_fold, is_empty}
use crosschain_enhanced_by_a.Asset.Config.{AssetConfig}
use crosschain_enhanced_by_a.Asset.Id.{get_asset_id}
use crosschain_enhanced_by_a.Factory.Tasks.{
  AllowEntry, TaskConfig, TaskError, Found, tasks_at, failed, find_task,
  get_task_config_by_src_dst_assets,
}
use crosschain_enhanced_by_a.Factory.Assets.{
  TokenCell, TaskRef, AssetError, Answer, Factory, id_of, cfg_from_asset,
}

-- What a lookup returns: an asset, a task of `AllTasks` by its index, a copy of one, or `&TaskConfig{}`.
pub data TaskAnswer : Type 0 where
  asset_item : TaskRef → TaskAnswer
  shared_task : ℕ → TaskAnswer
  new_task : TaskConfig TaskRef → TaskAnswer
  empty_task : TaskAnswer

-- The errors of these lookups.
pub data LookupError : Type 0 where
  asset_error unenriched : AssetError → LookupError
  not_allowed unknown_task : Text → LookupError
  invalid_src invalid_dst : LookupError
  path_error : TaskError → LookupError

abbrev pub Reply : Type 0
Reply = TaskAnswer × Option LookupError

-- The loop of `IsAllowedFunc`: the destination of the first entry that allows an asset.
unfoldable pub allowed_dst : Text → List AllowEntry → Option Text
unfolding eq_text
allowed_dst id [] = none
allowed_dst id (e ∷ es) =
    let later = allowed_dst id es in
    if eq_text e.src (codes "*") then some id else if eq_text e.src id then some e.dst else later

abbrev pub asset_failure : Option AssetError → Option LookupError
asset_failure none = none
asset_failure (some e) = some (asset_error e)

-- The copy of a task with its two assets; an error of the source asset is ignored.
abbrev pub with_src :
    TaskConfig TaskRef → TaskRef → Option (Factory × Answer) → Option (Factory × Reply)
with_src t dst none = none
with_src t dst (some (f, (src, e))) =
    some (f, (new_task (record t { src_asset = some src; dst_asset = some dst }), none))

abbrev pub on_pair :
    {A : Type 0}
    → Option (Factory × Answer)
    → (Factory → TaskRef → Option AssetError → Option A)
    → Option A
on_pair none next = none
on_pair (some (f, (item, e))) next = next f item e

module _ (copied : TokenCell → AssetConfig) where
  -- What follows the lookup of the destination in `enrichTask`.
  unfoldable pub enrich_src :
      ℕ
      → TaskConfig TaskRef
      → Text
      → Factory
      → TaskRef
      → Option AssetError
      → Option (Factory × Reply)
  unfolding cfg_from_asset
  enrich_src i t src f item (some e) = some (f, (shared_task i, some (unenriched e)))
  enrich_src i t src f item none = with_src t item (cfg_from_asset copied f src)

  -- `enrichTask`, on the task at an index
  unfoldable pub enrich_task :
      Factory → ℕ → TaskConfig TaskRef → Text → Text → Option (Factory × Reply)
  unfolding enrich_src cfg_from_asset
  enrich_task f i t src dst = on_pair (cfg_from_asset copied f dst) (enrich_src i t src)

  -- `IsAllowedFunc`
  abbrev pub from_allowed :
      Factory → ℕ → TaskConfig TaskRef → Text → Option Text → Option (Factory × Reply)
  from_allowed f i t id none = some (f, (shared_task i, some (not_allowed id)))
  from_allowed f i t id (some dst) = enrich_task f i t id dst

  abbrev pub at_task : Factory → ℕ → Text → Option (TaskConfig TaskRef) → Option (Factory × Reply)
  at_task f i id none = none
  at_task f i id (some t) = from_allowed f i t id (allowed_dst id t.allow_list)

  abbrev pub from_task : Factory → Text → Text → Option ℕ → Option (Factory × Reply)
  from_task f name id none = some (f, (empty_task, some (unknown_task name)))
  from_task f name id (some i) = at_task f i id (get_elem? f.all_tasks i)

  -- What follows the lookup of the asset in `cfgFromTask`.
  unfoldable pub by_task_name :
      Text → Text → Factory → TaskRef → Option AssetError → Option (Factory × Reply)
  unfolding enrich_task allowed_dst find_task
  by_task_name name id f item e =
      if is_empty name
      then some (f, (asset_item item, asset_failure e))
      else from_task f name id (find_task name f.all_tasks)

  -- `cfgFromTask`
  unfoldable pub cfg_from_task : Factory → Text → Text → Option (Factory × Reply)
  unfolding by_task_name cfg_from_asset
  cfg_from_task f name raw =
      let id = get_asset_id raw [] in on_pair (cfg_from_asset copied f id) (by_task_name name id)

abbrev pub text_or_empty : Option Text → Text
text_or_empty none = []
text_or_empty (some t) = t

-- `getTaskConfigBySrcDstAssets` on the tasks of the factory; the identifier of nil is a panic.
abbrev pub with_ids :
    Factory → TaskRef → TaskRef → Option Text → Option Text → Option (Factory × Found)
with_ids f src dst none d = none
with_ids f src dst (some s) none = none
with_ids f src dst (some s) (some d) =
    let result =
      get_task_config_by_src_dst_assets (λ r. text_or_empty (id_of f r)) src dst f.all_pipelines
        f.all_tasks in
    some (record f { all_tasks = result.0 }, result.1)

unfoldable pub tasks_for : Factory → TaskRef → TaskRef → Option (Factory × Found)
unfolding get_task_config_by_src_dst_assets id_of
tasks_for f src dst = with_ids f src dst (id_of f src) (id_of f dst)

abbrev pub name_at : List (TaskConfig TaskRef) → ℕ → Text
name_at [] i = []
name_at (t ∷ ts) ℕ.zero = t.name
name_at (t ∷ ts) (ℕ.suc i) = name_at ts i

-- The loop over the tasks of the path.
unfoldable pub find_named : List (TaskConfig TaskRef) → Text → List ℕ → Option ℕ
unfolding equal_fold
find_named ts name [] = none
find_named ts name (i ∷ is) =
    let later = find_named ts name is in if equal_fold (name_at ts i) name then some i else later

abbrev pub named_reply : Text → Option ℕ → Reply
named_reply name none = (empty_task, some (unknown_task name))
named_reply name (some i) = (shared_task i, none)

unfoldable pub from_path : Text → Option (Factory × Found) → Option (Factory × Reply)
unfolding find_named
from_path name none = none
from_path name (some (f, failed e)) = some (f, (empty_task, some (path_error e)))
from_path name (some (f, tasks_at is)) = some (f, named_reply name (find_named f.all_tasks name is))

abbrev pub all_replies :
    Option (Factory × Found) → Option (Factory × (List TaskAnswer × Option LookupError))
all_replies none = none
all_replies (some (f, failed e)) = some (f, ([], some (path_error e)))
all_replies (some (f, tasks_at is)) = some (f, (map shared_task is, none))

module _ (copied : TokenCell → AssetConfig) where
  -- The lookup by the two assets, whose errors are ignored.
  unfoldable pub by_path : Factory → Text → Text → Text → Option (Factory × Reply)
  unfolding from_path tasks_for cfg_from_asset
  by_path f name src_id dst_id = on_pair (cfg_from_asset copied f src_id) (λ g src e.
      on_pair (cfg_from_asset copied g dst_id) (λ h dst e'. from_path name (tasks_for h src dst)))

  -- The task of the configuration, where there is one.
  unfoldable pub or_by_path :
      Text → Text → Text → Option (Factory × Reply) → Option (Factory × Reply)
  unfolding by_path
  or_by_path name src dst none = none
  or_by_path name src dst (some (f, (task, none))) = some (f, (task, none))
  or_by_path name src dst (some (f, (task, some e))) = by_path f name src dst

  -- `cfgFromTaskByNameSrcDstAssetIDs`
  unfoldable pub cfg_from_task_by_name_src_dst_asset_ids :
      Factory → Text → Text → Text → Option (Factory × Reply)
  unfolding or_by_path cfg_from_task
  cfg_from_task_by_name_src_dst_asset_ids f name src dst =
      let task = cfg_from_task copied f name src in
      if is_empty dst then task else or_by_path name src dst task

  -- What follows the lookup of the destination in `cfgFromMultiAsset`.
  unfoldable pub multi_dst :
      TaskRef
      → Factory
      → TaskRef
      → Option AssetError
      → Option (Factory × (List TaskAnswer × Option LookupError))
  unfolding tasks_for
  multi_dst src f dst (some e) = some (f, ([], some invalid_dst))
  multi_dst src f dst none = all_replies (tasks_for f src dst)

  -- What follows the lookup of the source.
  unfoldable pub multi_src :
      Text
      → Factory
      → TaskRef
      → Option AssetError
      → Option (Factory × (List TaskAnswer × Option LookupError))
  unfolding multi_dst cfg_from_asset
  multi_src dst f src (some e) = some (f, ([], some invalid_src))
  multi_src dst f src none =
      let rest = on_pair (cfg_from_asset copied f dst) (multi_dst src) in
      if is_empty dst then some (f, (asset_item src ∷ [], none)) else rest

  -- `cfgFromMultiAsset`
  unfoldable pub cfg_from_multi_asset :
      Factory → Text → Text → Option (Factory × (List TaskAnswer × Option LookupError))
  unfolding multi_src cfg_from_asset
  cfg_from_multi_asset f src dst = on_pair (cfg_from_asset copied f src) (multi_src dst)
