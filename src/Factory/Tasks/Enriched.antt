-- ===== src/Factory/Tasks/Enriched.antt =====
-- factory/main.go: the tasks that `getTaskConfigBySrcDstAssets` returns have the assets it was given.
use crosschain_enhanced_by_a.Prelude.{
  ℕ, zero, suc, ◌<◌, Bool, true, false, List, [], ◌∷◌, Option, none, some, ◌≡◌, refl, sym, subst,
  arith, if◌then◌else◌, get_elem?, length, All, inl, inr, Bool-cases, Option-cases,
}
use crosschain_enhanced_by_a.Prelude.Text.{Text, eq_text}
use crosschain_enhanced_by_a.Factory.Tasks.{
  PipelineConfig, TaskConfig, Found, tasks_at, failed, found_first, next_index, allows, find_task,
  find_allowed, enrich_task_at, run_names, run_pipelines, get_task_config_by_src_dst_assets,
}
use crosschain_enhanced_by_a.Factory.Tasks.Shared.{
  run_names-none, run_names-some, get_task_config-direct, get_task_config-pipeline,
}

zero_first :
    (b : Bool) (o : Option ℕ) (i n : ℕ)
    → b ≡ true
    → (if b then some zero else next_index o) ≡ some i
    → i < suc n
zero_first b o i n h e = ground arith

later_lt :
    (b : Bool) (o : Option ℕ) (i n : ℕ)
    → b ≡ false
    → (if b then some zero else next_index o) ≡ some i
    → ((j : ℕ) → o ≡ some j → j < n)
    → i < suc n
later_lt true o i n h e k = cc
later_lt false none i n h e k = cc
later_lt false (some j) i n h e k = let below = k j refl in ground arith

module _ {Item : Type 0} (src dst : Item) where
  -- The task at an index has the two assets.
  abbrev pub IsEnriched : List (TaskConfig Item) → ℕ → Type 0
  IsEnriched ts i =
      (t : TaskConfig Item) × (get_elem? ts i ≡ some t)
      × (t.src_asset ≡ some src)
      × (t.dst_asset ≡ some dst)

  -- Every task that is returned has them; an error returns none.
  abbrev pub AllEnriched : List (TaskConfig Item) → Found → Type 0
  AllEnriched ts (tasks_at is) = All (IsEnriched ts) is
  AllEnriched ts (failed e) = Unit

  find_task-lt :
      (name : Text) (ts : List (TaskConfig Item)) (i : ℕ)
      → find_task name ts ≡ some i
      → i < length ts
  unfolding find_task
  find_task-lt name [] i e = cc
  find_task-lt name (t ∷ ts) i e = elim (Bool-cases (eq_text t.name name)) [
    | inl h ↦ zero_first (eq_text t.name name) (find_task name ts) i (length ts) h e
    | inr h ↦
        later_lt (eq_text t.name name) (find_task name ts) i (length ts) h e (find_task-lt name ts)
  ]

  find_allowed-lt :
      (s d : Text) (ts : List (TaskConfig Item)) (i : ℕ)
      → find_allowed s d ts ≡ some i
      → i < length ts
  unfolding find_allowed
  find_allowed-lt s d [] i e = cc
  find_allowed-lt s d (t ∷ ts) i e = elim (Bool-cases (allows s d t.allow_list)) [
    | inl h ↦ zero_first (allows s d t.allow_list) (find_allowed s d ts) i (length ts) h e
    | inr h ↦
        later_lt (allows s d t.allow_list) (find_allowed s d ts) i (length ts) h e
          (find_allowed-lt s d ts)
  ]

  IsEnriched-here :
      (ts : List (TaskConfig Item)) (i : ℕ)
      → i < length ts
      → IsEnriched (enrich_task_at src dst ts i) i
  unfolding enrich_task_at
  IsEnriched-here [] i h = absurd (omega (arith, h))
  IsEnriched-here (t ∷ ts) zero h = (_, refl, refl, refl)
  IsEnriched-here (t ∷ ts) (suc i) h = IsEnriched-here ts i (omega (arith, h))

  IsEnriched-enrich :
      (ts : List (TaskConfig Item)) (i j : ℕ)
      → IsEnriched ts j
      → IsEnriched (enrich_task_at src dst ts i) j
  unfolding enrich_task_at
  IsEnriched-enrich [] i j h = h
  IsEnriched-enrich (t ∷ ts) zero zero h = (_, refl, refl, refl)
  IsEnriched-enrich (t ∷ ts) zero (suc j) h = h
  IsEnriched-enrich (t ∷ ts) (suc i) zero h = h
  IsEnriched-enrich (t ∷ ts) (suc i) (suc j) h = IsEnriched-enrich ts i j h

  run_names-keeps :
      (names : List Text) (ts : List (TaskConfig Item)) (j : ℕ)
      → IsEnriched ts j
      → IsEnriched (run_names src dst names ts).0 j
  unfolding run_names
  run_names-keeps [] ts j h = h
  run_names-keeps (name ∷ names) ts j h = elim (Option-cases (find_task name ts)) [
    | inl e ↦ subst (λ r. IsEnriched r.0 j) (sym (run_names-none src dst name names ts e)) h
    | inr f ↦
        subst (λ r. IsEnriched r.0 j) (sym (run_names-some src dst name names ts f.0 f.1))
          (run_names-keeps names (enrich_task_at src dst ts f.0) j (IsEnriched-enrich ts f.0 j h))
  ]

  AllEnriched-first :
      (ts : List (TaskConfig Item)) (i : ℕ) (r : Found)
      → IsEnriched ts i
      → AllEnriched ts r
      → AllEnriched ts (found_first i r)
  AllEnriched-first ts i (tasks_at is) h k = (h, k)
  AllEnriched-first ts i (failed e) h k = tt

  run_names-AllEnriched :
      (names : List Text) (ts : List (TaskConfig Item))
      → AllEnriched (run_names src dst names ts).0 (run_names src dst names ts).1
  unfolding run_names
  run_names-AllEnriched [] ts = tt
  run_names-AllEnriched (name ∷ names) ts = elim (Option-cases (find_task name ts)) [
    | inl e ↦ subst (λ r. AllEnriched r.0 r.1) (sym (run_names-none src dst name names ts e)) tt
    | inr f ↦
        let next = enrich_task_at src dst ts f.0 in
        subst (λ r. AllEnriched r.0 r.1) (sym (run_names-some src dst name names ts f.0 f.1))
          (AllEnriched-first (run_names src dst names next).0 f.0 (run_names src dst names next).1
            (run_names-keeps names next f.0 (IsEnriched-here ts f.0 (find_task-lt name ts f.0 f.1)))
            (run_names-AllEnriched names next))
  ]

  run_pipelines-AllEnriched :
      (s d : Text) (ps : List PipelineConfig) (ts : List (TaskConfig Item))
      → AllEnriched (run_pipelines src dst s d ps ts).0 (run_pipelines src dst s d ps ts).1
  unfolding run_pipelines
  run_pipelines-AllEnriched s d [] ts = tt
  run_pipelines-AllEnriched s d (p ∷ ps) ts = elim (Bool-cases (allows s d p.allow_list)) [
    | inl e ↦ rw e (run_names-AllEnriched p.tasks ts)
    | inr e ↦ rw e (run_pipelines-AllEnriched s d ps ts)
  ]

  -- After a call of `getTaskConfigBySrcDstAssets`, each task that it returns is among the shared tasks
  -- and has the source and the destination of the call.
  pub get_task_config-AllEnriched :
      (id : Item → Text) (ps : List PipelineConfig) (ts : List (TaskConfig Item))
      → let result = get_task_config_by_src_dst_assets id src dst ps ts in
        AllEnriched result.0 result.1
  get_task_config-AllEnriched id ps ts = elim (Option-cases (find_allowed (id src) (id dst) ts)) [
    | inl e ↦
        subst (λ r. AllEnriched r.0 r.1) (sym (get_task_config-pipeline id src dst ps ts e))
          (run_pipelines-AllEnriched (id src) (id dst) ps ts)
    | inr f ↦
        subst (λ r. AllEnriched r.0 r.1) (sym (get_task_config-direct id src dst ps ts f.0 f.1))
          (IsEnriched-here ts f.0 (find_allowed-lt (id src) (id dst) ts f.0 f.1), tt)
  ]
