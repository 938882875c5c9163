-- ===== src/Factory/Tasks.antt =====
-- task.go and factory/main.go: tasks, pipelines and their allow lists; `parseAllowList`, `findTask`,
-- `enrichTaskBySrcDstAssets` and `getTaskConfigBySrcDstAssets`. A `*TaskConfig` is its index in
-- `AllTasks`, which all calls share; an asset is of any type with an identifier.
pub mod Shared
pub mod Enriched
pub mod Paths
use crosschain_enhanced_by_a.Prelude.{
  ℕ, zero, suc, Bool, true, false, ◌&&◌, ◌||◌, List, [], ◌∷◌, map, Option, none, some,
  if◌then◌else◌,
}
use crosschain_enhanced_by_a.Prelude.Text.{Text, codes, eq_text, split_two, trim_space}
use crosschain_enhanced_by_a.Asset.Id.{get_asset_id}

-- `AllowEntry`
pub record AllowEntry : Type 0 where
  pub src : Text
  pub dst : Text

-- The entry of one text of an allow list, from what `->` splits it into.
unfoldable pub allow_entry : List Text → AllowEntry
unfolding trim_space get_asset_id
allow_entry (one ∷ []) =
    let value = trim_space one in
    let id = if eq_text value (codes "*") then codes "*" else get_asset_id value [] in
    record { src = id; dst = id }
allow_entry (src ∷ dst ∷ []) = record {
  src = get_asset_id (trim_space src) [];
  dst = get_asset_id (trim_space dst) [];
}
allow_entry _ = record { src = []; dst = [] }

-- `parseAllowList`
unfoldable pub parse_allow_list : List Text → List AllowEntry
unfolding allow_entry split_two
parse_allow_list = map (λ allow. allow_entry (split_two b'-' b'>' allow))

-- The test of an allow list for a path.
unfoldable pub allows : Text → Text → List AllowEntry → Bool
allows src dst [] = false
allows src dst (e ∷ es) = (eq_text e.src src && eq_text e.dst dst) || allows src dst es

-- `PipelineConfig`
pub record PipelineConfig : Type 0 where
  pub id : Text
  pub allow : List Text
  pub tasks : List Text
  pub allow_list : List AllowEntry

-- `TaskConfig`, without the default parameters and the operations, which are not read here.
pub record TaskConfig (Item : Type 0) : Type 0 where
  pub name : Text
  pub code : Text
  pub allow : List Text
  pub signer : Text
  pub allow_list : List AllowEntry
  pub src_asset : Option Item
  pub dst_asset : Option Item

-- The two errors of `getTaskConfigBySrcDstAssets`.
pub data TaskError : Type 0 where
  invalid_task invalid_path : TaskError

-- The references that are returned, or an error.
pub data Found : Type 0 where
  tasks_at : List ℕ → Found
  failed : TaskError → Found

abbrev pub found_first : ℕ → Found → Found
found_first i (tasks_at is) = tasks_at (i ∷ is)
found_first i (failed e) = failed e

abbrev pub next_index : Option ℕ → Option ℕ
next_index none = none
next_index (some i) = some (suc i)

module _ {Item : Type 0} where
  -- `findTask`
  unfoldable pub find_task : Text → List (TaskConfig Item) → Option ℕ
  find_task name [] = none
  find_task name (t ∷ ts) =
      let later = next_index (find_task name ts) in if eq_text t.name name then some zero else later

  -- The first task that allows a path.
  unfoldable pub find_allowed : Text → Text → List (TaskConfig Item) → Option ℕ
  unfolding allows
  find_allowed src dst [] = none
  find_allowed src dst (t ∷ ts) =
      let later = next_index (find_allowed src dst ts) in
      if allows src dst t.allow_list then some zero else later

  -- `enrichTaskBySrcDstAssets`, on the task at an index.
  unfoldable pub enrich_task_at : Item → Item → List (TaskConfig Item) → ℕ → List (TaskConfig Item)
  enrich_task_at src dst [] i = []
  enrich_task_at src dst (t ∷ ts) zero =
      record t { src_asset = some src; dst_asset = some dst } ∷ ts
  enrich_task_at src dst (t ∷ ts) (suc i) = t ∷ enrich_task_at src dst ts i

  -- The loop over the names of the tasks of a pipeline.
  unfoldable pub run_names :
      Item → Item → List Text → List (TaskConfig Item) → List (TaskConfig Item) × Found
  unfolding find_task enrich_task_at
  run_names src dst [] ts = (ts, tasks_at [])
  run_names src dst (name ∷ names) ts = elim (find_task name ts) [
    | none ↦ (ts, failed TaskError.invalid_task)
    | some i ↦
        let rest = run_names src dst names (enrich_task_at src dst ts i) in
        (rest.0, found_first i rest.1)
  ]

  -- The loop over the pipelines.
  unfoldable pub run_pipelines :
      Item
      → Item
      → Text
      → Text
      → List PipelineConfig
      → List (TaskConfig Item)
      → List (TaskConfig Item) × Found
  unfolding run_names allows
  run_pipelines src dst src_id dst_id [] ts = (ts, failed TaskError.invalid_path)
  run_pipelines src dst src_id dst_id (p ∷ ps) ts =
      let later = run_pipelines src dst src_id dst_id ps ts in
      if allows src_id dst_id p.allow_list then run_names src dst p.tasks ts else later

  module _ (id : Item → Text) where
    -- `getTaskConfigBySrcDstAssets`
    unfoldable pub get_task_config_by_src_dst_assets :
        Item → Item → List PipelineConfig → List (TaskConfig Item) → List (TaskConfig Item) × Found
    unfolding find_allowed enrich_task_at run_pipelines
    get_task_config_by_src_dst_assets src dst pipelines ts =
        elim (find_allowed (id src) (id dst) ts) [
          | some i ↦ (enrich_task_at src dst ts i, tasks_at (i ∷ []))
          | none ↦ run_pipelines src dst (id src) (id dst) pipelines ts
        ]
