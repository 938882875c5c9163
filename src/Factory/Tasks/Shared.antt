-- ===== src/Factory/Tasks/Shared.antt =====
-- factory/main.go: what `getTaskConfigBySrcDstAssets` changes of the tasks that all calls share.
use crosschain_enhanced_by_a.Prelude.{
  ℕ, zero, suc, List, [], ◌∷◌, map, none, some, ◌≡◌, refl, sym, ap, ◌∙◌, inl, inr, Bool-cases,
  Option-cases,
}
use crosschain_enhanced_by_a.Prelude.Text.{Text}
use crosschain_enhanced_by_a.Factory.Tasks.{
  PipelineConfig, TaskConfig, TaskError, tasks_at, failed, found_first, allows, find_task,
  find_allowed, enrich_task_at, run_names, run_pipelines, get_task_config_by_src_dst_assets,
}

module _ {Item : Type 0} where
  -- A task as the configuration gives it, without its assets.
  abbrev pub bare : TaskConfig Item → TaskConfig Item
  bare t = record t { src_asset = none; dst_asset = none }

  enrich-bare :
      (src dst : Item) (ts : List (TaskConfig Item)) (i : ℕ)
      → map bare (enrich_task_at src dst ts i) ≡ map bare ts
  unfolding enrich_task_at
  enrich-bare src dst [] i = refl
  enrich-bare src dst (t ∷ ts) zero = refl
  enrich-bare src dst (t ∷ ts) (suc i) = ap (◌∷◌ (bare t)) (enrich-bare src dst ts i)

  pub run_names-none :
      (src dst : Item) (name : Text) (names : List Text) (ts : List (TaskConfig Item))
      → find_task name ts ≡ none
      → run_names src dst (name ∷ names) ts ≡ (ts, failed TaskError.invalid_task)
  unfolding run_names
  run_names-none src dst name names ts e = rw (run_names, e) refl

  pub run_names-some :
      (src dst : Item) (name : Text) (names : List Text) (ts : List (TaskConfig Item)) (i : ℕ)
      → find_task name ts ≡ some i
      → let rest = run_names src dst names (enrich_task_at src dst ts i) in
        run_names src dst (name ∷ names) ts ≡ (rest.0, found_first i rest.1)
  unfolding run_names
  run_names-some src dst name names ts i e = rw (run_names, e) refl

  run_names-bare :
      (src dst : Item) (names : List Text) (ts : List (TaskConfig Item))
      → map bare (run_names src dst names ts).0 ≡ map bare ts
  unfolding run_names
  run_names-bare src dst [] ts = refl
  run_names-bare src dst (name ∷ names) ts = elim (Option-cases (find_task name ts)) [
    | inl e ↦ ap (λ r. map bare r.0) (run_names-none src dst name names ts e)
    | inr f ↦
        ap (λ r. map bare r.0) (run_names-some src dst name names ts f.0 f.1)
        ∙ run_names-bare src dst names (enrich_task_at src dst ts f.0)
        ∙ enrich-bare src dst ts f.0
  ]

  run_pipelines-bare :
      (src dst : Item) (s d : Text) (ps : List PipelineConfig) (ts : List (TaskConfig Item))
      → map bare (run_pipelines src dst s d ps ts).0 ≡ map bare ts
  unfolding run_pipelines
  run_pipelines-bare src dst s d [] ts = refl
  run_pipelines-bare src dst s d (p ∷ ps) ts = elim (Bool-cases (allows s d p.allow_list)) [
    | inl e ↦ rw e (run_names-bare src dst p.tasks ts)
    | inr e ↦ rw e (run_pipelines-bare src dst s d ps ts)
  ]

  find_task-bare :
      (name : Text) (ts : List (TaskConfig Item)) → find_task name (map bare ts) ≡ find_task name ts
  unfolding find_task
  find_task-bare name [] = refl
  find_task-bare name (t ∷ ts) = rw (find_task-bare name ts) refl

  find_allowed-bare :
      (s d : Text) (ts : List (TaskConfig Item))
      → find_allowed s d (map bare ts) ≡ find_allowed s d ts
  unfolding find_allowed
  find_allowed-bare s d [] = refl
  find_allowed-bare s d (t ∷ ts) = rw (find_allowed-bare s d ts) refl

  run_names-same :
      (src dst : Item) (names : List Text) (ts us : List (TaskConfig Item))
      → map bare ts ≡ map bare us
      → (run_names src dst names ts).1 ≡ (run_names src dst names us).1
  unfolding run_names
  run_names-same src dst [] ts us h = refl
  run_names-same src dst (name ∷ names) ts us h =
      let same = sym (find_task-bare name ts) ∙ ap (find_task name) h ∙ find_task-bare name us in
      elim (Option-cases (find_task name us)) [
        | inl e ↦
            ap (λ r. r.1) (run_names-none src dst name names ts (same ∙ e))
            ∙ sym (ap (λ r. r.1) (run_names-none src dst name names us e))
        | inr f ↦
            ap (λ r. r.1) (run_names-some src dst name names ts f.0 (same ∙ f.1))
            ∙ ap (found_first f.0) (
                run_names-same src dst names (enrich_task_at src dst ts f.0)
                  (enrich_task_at src dst us f.0)
                  (enrich-bare src dst ts f.0 ∙ h ∙ sym (enrich-bare src dst us f.0)))
            ∙ sym (ap (λ r. r.1) (run_names-some src dst name names us f.0 f.1))
      ]

  run_pipelines-same :
      (src dst : Item) (s d : Text) (ps : List PipelineConfig) (ts us : List (TaskConfig Item))
      → map bare ts ≡ map bare us
      → (run_pipelines src dst s d ps ts).1 ≡ (run_pipelines src dst s d ps us).1
  unfolding run_pipelines
  run_pipelines-same src dst s d [] ts us h = refl
  run_pipelines-same src dst s d (p ∷ ps) ts us h = elim (Bool-cases (allows s d p.allow_list)) [
    | inl e ↦ rw e (run_names-same src dst p.tasks ts us h)
    | inr e ↦ rw e (run_pipelines-same src dst s d ps ts us h)
  ]

  module _ (id : Item → Text) where
    pub get_task_config-direct :
        (src dst : Item) (ps : List PipelineConfig) (ts : List (TaskConfig Item)) (i : ℕ)
        → find_allowed (id src) (id dst) ts ≡ some i
        → get_task_config_by_src_dst_assets id src dst ps ts
          ≡ (enrich_task_at src dst ts i, tasks_at (i ∷ []))
    unfolding get_task_config_by_src_dst_assets
    get_task_config-direct src dst ps ts i e = rw (get_task_config_by_src_dst_assets, e) refl

    pub get_task_config-pipeline :
        (src dst : Item) (ps : List PipelineConfig) (ts : List (TaskConfig Item))
        → find_allowed (id src) (id dst) ts ≡ none
        → get_task_config_by_src_dst_assets id src dst ps ts
          ≡ run_pipelines src dst (id src) (id dst) ps ts
    unfolding get_task_config_by_src_dst_assets
    get_task_config-pipeline src dst ps ts e = rw (get_task_config_by_src_dst_assets, e) refl

    -- `getTaskConfigBySrcDstAssets` changes nothing of the tasks but their two assets.
    pub get_task_config-bare :
        (src dst : Item) (ps : List PipelineConfig) (ts : List (TaskConfig Item))
        → map bare (get_task_config_by_src_dst_assets id src dst ps ts).0 ≡ map bare ts
    unfolding get_task_config_by_src_dst_assets
    get_task_config-bare src dst ps ts = elim (Option-cases (find_allowed (id src) (id dst) ts)) [
      | inl e ↦
          ap (λ r. map bare r.0) (get_task_config-pipeline src dst ps ts e)
          ∙ run_pipelines-bare src dst (id src) (id dst) ps ts
      | inr f ↦
          ap (λ r. map bare r.0) (get_task_config-direct src dst ps ts f.0 f.1)
          ∙ enrich-bare src dst ts f.0
    ]

    get_task_config-same :
        (src dst : Item) (ps : List PipelineConfig) (ts us : List (TaskConfig Item))
        → map bare ts ≡ map bare us
        → (get_task_config_by_src_dst_assets id src dst ps ts).1
          ≡ (get_task_config_by_src_dst_assets id src dst ps us).1
    get_task_config-same src dst ps ts us h =
        let same =
          sym (find_allowed-bare (id src) (id dst) ts)
          ∙ ap (find_allowed (id src) (id dst)) h
          ∙ find_allowed-bare (id src) (id dst) us in
        elim (Option-cases (find_allowed (id src) (id dst) us)) [
          | inl e ↦
              ap (λ r. r.1) (get_task_config-pipeline src dst ps ts (same ∙ e))
              ∙ run_pipelines-same src dst (id src) (id dst) ps ts us h
              ∙ sym (ap (λ r. r.1) (get_task_config-pipeline src dst ps us e))
          | inr f ↦
              ap (λ r. r.1) (get_task_config-direct src dst ps ts f.0 (same ∙ f.1))
              ∙ sym (ap (λ r. r.1) (get_task_config-direct src dst ps us f.0 f.1))
        ]

    -- A call of `getTaskConfigBySrcDstAssets` for any assets does not change which tasks a later call
    -- finds, or the error that it returns.
    pub get_task_config-independent :
        (src dst src' dst' : Item) (ps : List PipelineConfig) (ts : List (TaskConfig Item))
        → let before = get_task_config_by_src_dst_assets id src dst ps ts in
          (get_task_config_by_src_dst_assets id src' dst' ps before.0).1
          ≡ (get_task_config_by_src_dst_assets id src' dst' ps ts).1
    get_task_config-independent src dst src' dst' ps ts =
        get_task_config-same src' dst' ps _ ts (get_task_config-bare src dst ps ts)
