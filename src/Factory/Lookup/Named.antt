-- ===== src/Factory/Lookup/Named.antt =====
-- factory/main.go: the tasks that `cfgFromTaskByNameSrcDstAssetIDs` returns.
use crosschain_enhanced_by_a.Prelude.{
  ℕ, zero, suc, true, false, List, [], ◌∷◌, Option, none, some, ◌≡◌, refl, ap, sym, subst, ◌∙◌, ◌⊎◌,
  inl, inr, Bool-cases, get_elem?, All,
}
use crosschain_enhanced_by_a.Prelude.Text.{Text, is_empty, equal_fold}
use crosschain_enhanced_by_a.Asset.Config.{AssetConfig}
use crosschain_enhanced_by_a.Factory.Tasks.{
  PipelineConfig, TaskConfig, Found, tasks_at, failed, get_task_config_by_src_dst_assets,
}
use crosschain_enhanced_by_a.Factory.Tasks.Paths.{
  IsPathTask, AllReturned, task_at_index, get_task_config-AllReturned,
}
use crosschain_enhanced_by_a.Factory.Tasks.Enriched.{
  IsEnriched, AllEnriched, get_task_config-AllEnriched,
}
use crosschain_enhanced_by_a.Factory.Assets.{
  TokenCell, TaskRef, Answer, Factory, cfg_from_asset, id_of,
}
use crosschain_enhanced_by_a.Factory.Lookup.{
  TaskAnswer, shared_task, LookupError, Reply, cfg_from_task, with_ids, text_or_empty, tasks_for,
  name_at, find_named, named_reply, from_path, by_path, or_by_path,
  cfg_from_task_by_name_src_dst_asset_ids,
}
use crosschain_enhanced_by_a.Factory.Lookup.Allowed.{on_pair-eq-some}

name_at-get_elem? :
    (ts : List (TaskConfig TaskRef)) (j : ℕ) (t : TaskConfig TaskRef)
    → get_elem? ts j ≡ some t
    → name_at ts j ≡ t.name
name_at-get_elem? [] j t e = cc
name_at-get_elem? (x ∷ ts) zero t e = ap (λ o. name_of o) e
  where
    name_of : Option (TaskConfig TaskRef) → Text
    name_of none = []
    name_of (some t) = t.name
name_at-get_elem? (x ∷ ts) (suc j) t e = name_at-get_elem? ts j t e

-- The index that the loop finds is one of those given, and the name there is the one asked for.
find_named-eq-some :
    (P : ℕ → Type 0) (ts : List (TaskConfig TaskRef)) (name : Text) (is : List ℕ) (j : ℕ)
    → All P is
    → find_named ts name is ≡ some j
    → P j × (equal_fold (name_at ts j) name ≡ true)
unfolding find_named
find_named-eq-some P ts name [] j h e = cc
find_named-eq-some P ts name (i ∷ is) j h e = elim (Bool-cases (equal_fold (name_at ts i) name)) [
  | inl k ↦
      subst (λ x. P x × (equal_fold (name_at ts x) name ≡ true))
        (some_injective (sym (rw k refl) ∙ e)) (h.0, k)
  | inr k ↦ find_named-eq-some P ts name is j h.1 (sym (rw k refl) ∙ e)
]
  where
    some_injective : {a b : ℕ} → ◌≡◌ {A = Option ℕ} (some a) (some b) → a ≡ b
    some_injective q = cc

All-both {ℓ} :
    {A : Type ℓ} (P Q : A → Type 0) (xs : List A) → All P xs → All Q xs → All (λ x. P x × Q x) xs
All-both P Q [] h k = tt
All-both P Q (x ∷ xs) (p, h) (q, k) = ((p, q), All-both P Q xs h k)

-- A task of `AllTasks` with the name, up to case, and with the two assets. Its list has an entry from the
-- one identifier to the other, or it is named by a pipeline whose list has.
abbrev pub IsOnPath :
    Text → Text → List PipelineConfig → Text → TaskRef → TaskRef → Factory × Reply → Type 0
IsOnPath src_id dst_id ps name src dst s =
    (j : ℕ) × (t : TaskConfig TaskRef) × (s.1 ≡ (shared_task j, none))
    × (get_elem? s.0.all_tasks j ≡ some t)
    × (equal_fold t.name name ≡ true)
    × (t.src_asset ≡ some src)
    × (t.dst_asset ≡ some dst)
    × IsPathTask src_id dst_id ps t.name t.allow_list

-- A lookup by two assets that returns tasks: each has the two assets, and is of a path between their
-- identifiers.
abbrev TasksFor :
    Factory → TaskRef → TaskRef → Option Text → Option Text → Option (Factory × Found) → Type 0
TasksFor f src dst s d none = Unit
TasksFor f src dst s d (some r) =
    (src_id : Text) × (dst_id : Text) × (s ≡ some src_id)
    × (d ≡ some dst_id)
    × AllEnriched src dst r.0.all_tasks r.1
    × AllReturned (IsPathTask src_id dst_id f.all_pipelines) r.0.all_tasks r.1

with_ids-TasksFor :
    (f : Factory) (src dst : TaskRef) (s d : Option Text)
    → id_of f src ≡ s
    → id_of f dst ≡ d
    → TasksFor f src dst s d (with_ids f src dst s d)
with_ids-TasksFor f src dst none d h k = tt
with_ids-TasksFor f src dst (some s) none h k = tt
with_ids-TasksFor f src dst (some s) (some d) h k =
    let id = λ (r : TaskRef). text_or_empty (id_of f r) in
    let r = get_task_config_by_src_dst_assets id src dst f.all_pipelines f.all_tasks in
    (
      s,
      d,
      refl,
      refl,
      get_task_config-AllEnriched src dst id f.all_pipelines f.all_tasks,
      subst (λ x. AllReturned (IsPathTask x d f.all_pipelines) r.0 r.1) (ap text_or_empty h)
          (subst (λ y. AllReturned (IsPathTask (id src) y f.all_pipelines) r.0 r.1)
            (ap text_or_empty k)
            (get_task_config-AllReturned src dst id f.all_pipelines f.all_tasks)),
    )

no_error :
    {A : Type 0} {a : TaskAnswer} {e : LookupError} {f : Factory} (s : Factory × Reply)
    → ◌≡◌ {A = Option (Factory × Reply)} (some (f, (a, some e))) (some s)
    → s.1.1 ≡ none
    → A
no_error {A} {a} {e} {f} s same ok = absurd (clash (ap (λ o. error_of o) same ∙ ok))
  where
    error_of : Option (Factory × Reply) → Option LookupError
    error_of none = none
    error_of (some p) = p.1.1

    clash : ◌≡◌ {A = Option LookupError} (some e) none → ⊥
    clash q = cc

named-IsOnPath :
    (src_id dst_id : Text) (ps : List PipelineConfig) (name : Text) (src dst : TaskRef)
    (f : Factory) (is : List ℕ) (o : Option ℕ) (s : Factory × Reply)
    → All (IsEnriched src dst f.all_tasks) is
    → AllReturned (IsPathTask src_id dst_id ps) f.all_tasks (tasks_at is)
    → find_named f.all_tasks name is ≡ o
    → some (f, named_reply name o) ≡ some s
    → s.1.1 ≡ none
    → IsOnPath src_id dst_id ps name src dst s
named-IsOnPath src_id dst_id ps name src dst f is none s h on k e ok = no_error s e ok
named-IsOnPath src_id dst_id ps name src dst f is (some j) s h on k e ok =
    let (found, same) = find_named-eq-some _ f.all_tasks name is j (All-both _ _ is h on) k in
    let enriched = found.0 in
    subst (IsOnPath src_id dst_id ps name src dst) (some_injective e) (
      j,
      enriched.0,
      refl,
      enriched.1,
      ap (λ n. equal_fold n name) (sym (name_at-get_elem? f.all_tasks j enriched.0 enriched.1))
          ∙ same,
      enriched.2,
      enriched.3,
      task_at_index (IsPathTask src_id dst_id ps) f.all_tasks j enriched.0 enriched.1 found.1,
    )
  where
    some_injective :
        {a b : Factory × Reply} → ◌≡◌ {A = Option (Factory × Reply)} (some a) (some b) → a ≡ b
    some_injective q = cc

from_path-IsOnPath :
    (g : Factory) (name : Text) (src dst : TaskRef) (a b : Option Text)
    (o : Option (Factory × Found)) (s : Factory × Reply)
    → TasksFor g src dst a b o
    → from_path name o ≡ some s
    → s.1.1 ≡ none
    → (src_id : Text) × (dst_id : Text) × (a ≡ some src_id)
      × (b ≡ some dst_id)
      × IsOnPath src_id dst_id g.all_pipelines name src dst s
unfolding from_path
from_path-IsOnPath g name src dst a b none s h e ok = cc
from_path-IsOnPath g name src dst a b (some (f, failed p)) s h e ok = no_error s e ok
from_path-IsOnPath g name src dst a b (some (f, tasks_at is)) s (src_id, dst_id, i, j, h, on) e ok =
    (
      src_id,
      dst_id,
      i,
      j,
      named-IsOnPath src_id dst_id g.all_pipelines name src dst f is
          (find_named f.all_tasks name is) s h on refl e ok,
    )

module _ (copied : TokenCell → AssetConfig) where
  -- The task of a path between the two assets, as lookups return them in the state that the failed
  -- lookup of the task leaves.
  abbrev PathFrom : Factory → Text → Text → Text → Factory × Reply → Type 0
  PathFrom f name src dst s =
      (p : Factory × Answer) × (q : Factory × Answer) × (cfg_from_asset copied f src ≡ some p)
      × (cfg_from_asset copied p.0 dst ≡ some q)
      × ((src_id : Text) × (dst_id : Text) × (id_of q.0 p.1.0 ≡ some src_id)
          × (id_of q.0 q.1.0 ≡ some dst_id)
          × IsOnPath src_id dst_id q.0.all_pipelines name p.1.0 q.1.0 s)

  abbrev pub IsByPath : Factory → Text → Text → Text → Factory × Reply → Type 0
  IsByPath g name src dst s =
      (f : Factory) × (task : TaskAnswer) × (e : LookupError) × (cfg_from_task copied g name src
        ≡ some (f, (task, some e)))
      × PathFrom f name src dst s

  by_path-PathFrom :
      (f : Factory) (name src dst : Text) (s : Factory × Reply)
      → by_path copied f name src dst ≡ some s
      → s.1.1 ≡ none
      → PathFrom f name src dst s
  unfolding by_path tasks_for
  by_path-PathFrom f name src dst s e ok =
      let (p, known, rest) = on_pair-eq-some (cfg_from_asset copied f src) _ e in
      let (q, found, last) = on_pair-eq-some (cfg_from_asset copied p.0 dst) _ rest in
      (
        p,
        q,
        known,
        found,
        from_path-IsOnPath q.0 name p.1.0 q.1.0 (id_of q.0 p.1.0) (id_of q.0 q.1.0)
            (tasks_for q.0 p.1.0 q.1.0) s
            (with_ids-TasksFor q.0 p.1.0 q.1.0 (id_of q.0 p.1.0) (id_of q.0 q.1.0) refl refl) last
            ok,
      )

  or_by_path-cases :
      (g : Factory) (name src dst : Text) (o : Option (Factory × Reply)) (s : Factory × Reply)
      → cfg_from_task copied g name src ≡ o
      → or_by_path copied name src dst o ≡ some s
      → s.1.1 ≡ none
      → (o ≡ some s) ⊎ IsByPath g name src dst s
  unfolding or_by_path
  or_by_path-cases g name src dst none s h e ok = cc
  or_by_path-cases g name src dst (some (f, (task, none))) s h e ok = inl e
  or_by_path-cases g name src dst (some (f, (task, some x))) s h e ok =
      inr (f, task, x, h, by_path-PathFrom f name src dst s e ok)

  -- With a destination, `cfgFromTaskByNameSrcDstAssetIDs` returns without an error what `cfgFromTask`
  -- returns, or, where that has an error, a shared task whose name is the one asked for up to case and
  -- which has the two assets. The list of that task has an entry from the identifier of the source to
  -- that of the destination, or a pipeline whose list has such an entry names it.
  pub by_name-IsByPath :
      (f : Factory) (name src dst : Text) (s : Factory × Reply)
      → is_empty dst ≡ false
      → cfg_from_task_by_name_src_dst_asset_ids copied f name src dst ≡ some s
      → s.1.1 ≡ none
      → (cfg_from_task copied f name src ≡ some s) ⊎ IsByPath f name src dst s
  unfolding cfg_from_task_by_name_src_dst_asset_ids
  by_name-IsByPath f name src dst s given e ok =
      or_by_path-cases f name src dst (cfg_from_task copied f name src) s refl
        (sym (with_dst given) ∙ e) ok
    where
      with_dst :
          is_empty dst ≡ false
          → cfg_from_task_by_name_src_dst_asset_ids copied f name src dst
            ≡ or_by_path copied name src dst (cfg_from_task copied f name src)
      with_dst h = rw (cfg_from_task_by_name_src_dst_asset_ids, h) refl
