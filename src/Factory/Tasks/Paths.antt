-- ===== src/Factory/Tasks/Paths.antt =====
-- factory/main.go: the tasks that `getTaskConfigBySrcDstAssets` returns are those of a path.
use crosschain_enhanced_by_a.Prelude.{
  ℕ, zero, suc, Bool, true, false, ◌&&◌, List, [], ◌∷◌, ◌++◌, Option, none, some, ◌≡◌, refl, sym,
  ap, subst, ◌∙◌, ◌⊎◌, arith, if◌then◌else◌, get_elem?, All, All-imp, inl, inr, Bool-cases,
  Option-cases,
}
use crosschain_enhanced_by_a.Prelude.Text.{Text, eq_text, eq_text_iff}
use crosschain_enhanced_by_a.Factory.Tasks.{
  AllowEntry, PipelineConfig, TaskConfig, Found, tasks_at, failed, found_first, next_index, allows,
  find_task, find_allowed, enrich_task_at, run_names, run_pipelines,
  get_task_config_by_src_dst_assets,
}
use crosschain_enhanced_by_a.Factory.Tasks.Shared.{
  run_names-none, run_names-some, get_task_config-direct, get_task_config-pipeline,
}

-- An element of a list.
abbrev pub Among : {A : Type 0} → A → List A → Type 0
Among {A} x xs = (before : List A) × (after : List A) × (xs ≡ before ++ (x ∷ after))

Among-cons : {A : Type 0} {x : A} (y : A) {xs : List A} → Among x xs → Among x (y ∷ xs)
Among-cons y (before, after, e) = (y ∷ before, after, ap (◌∷◌ y) e)

All-Among : {A : Type 0} (xs : List A) → All (λ x. Among x xs) xs
All-Among [] = tt
All-Among (x ∷ xs) = (([], xs, refl), All-imp (λ y h. Among-cons x h) xs (All-Among xs))

-- An allow list with an entry from one asset to another.
abbrev pub AllowsPath : Text → Text → List AllowEntry → Type 0
AllowsPath src dst es = (e : AllowEntry) × Among e es × (e.src ≡ src) × (e.dst ≡ dst)

both : (a b : Bool) → (a && b) ≡ true → (a ≡ true) × (b ≡ true)
both a b h = ground arith

allows-AllowsPath :
    (src dst : Text) (es : List AllowEntry) → allows src dst es ≡ true → AllowsPath src dst es
unfolding allows
allows-AllowsPath src dst [] h = cc
allows-AllowsPath src dst (e ∷ es) h = elim (Bool-cases (eq_text e.src src && eq_text e.dst dst)) [
  | inl k ↦
      let (s, d) = both (eq_text e.src src) (eq_text e.dst dst) k in
      (e, ([], es, refl), (eq_text_iff e.src src).0 s, (eq_text_iff e.dst dst).0 d)
  | inr k ↦
      let (x, among, s, d) = allows-AllowsPath src dst es (sym (rw k refl) ∙ h) in
      (x, Among-cons e among, s, d)
]

-- A task of a path between two assets: its own list allows the path, or it is named by a pipeline
-- whose list does.
abbrev pub IsPathTask : Text → Text → List PipelineConfig → Text → List AllowEntry → Type 0
IsPathTask src dst ps name es =
    AllowsPath src dst es
    ⊎ ((p : PipelineConfig) × Among p ps × AllowsPath src dst p.allow_list × Among name p.tasks)

first_or_later :
    (P : ℕ → Type 0) (b : Bool) (o : Option ℕ) (i : ℕ)
    → (if b then some zero else next_index o) ≡ some i
    → (b ≡ true → P zero)
    → ((k : ℕ) → o ≡ some k → P (suc k))
    → P i
first_or_later P true o i e here later = subst P (some_injective e) (here refl)
  where
    some_injective : {a b : ℕ} → ◌≡◌ {A = Option ℕ} (some a) (some b) → a ≡ b
    some_injective q = cc
first_or_later P false none i e here later = cc
first_or_later P false (some k) i e here later = subst P (some_injective e) (later k refl)
  where
    some_injective : {a b : ℕ} → ◌≡◌ {A = Option ℕ} (some a) (some b) → a ≡ b
    some_injective q = cc

module _ {Item : Type 0} where
  -- The name and the allow list of the task at an index, empty out of range.
  abbrev pub name_of_task : List (TaskConfig Item) → ℕ → Text
  name_of_task [] j = []
  name_of_task (t ∷ ts) zero = t.name
  name_of_task (t ∷ ts) (suc j) = name_of_task ts j

  abbrev pub allow_list_of : List (TaskConfig Item) → ℕ → List AllowEntry
  allow_list_of [] j = []
  allow_list_of (t ∷ ts) zero = t.allow_list
  allow_list_of (t ∷ ts) (suc j) = allow_list_of ts j

  pub task_at_index :
      (P : Text → List AllowEntry → Type 0) (ts : List (TaskConfig Item)) (j : ℕ)
      (t : TaskConfig Item)
      → get_elem? ts j ≡ some t
      → P (name_of_task ts j) (allow_list_of ts j)
      → P t.name t.allow_list
  task_at_index P [] j t e h = cc
  task_at_index P (x ∷ ts) zero t e h = subst (λ t. P t.name t.allow_list) (task_injective e) h
    where
      task_injective :
          {a b : TaskConfig Item} → ◌≡◌ {A = Option (TaskConfig Item)} (some a) (some b) → a ≡ b
      task_injective q = cc
  task_at_index P (x ∷ ts) (suc j) t e h = task_at_index P ts j t e h

  -- A statement of the name and the list of each task that is returned.
  abbrev pub AllReturned :
      (Text → List AllowEntry → Type 0) → List (TaskConfig Item) → Found → Type 0
  AllReturned P ts (tasks_at is) = All (λ j. P (name_of_task ts j) (allow_list_of ts j)) is
  AllReturned P ts (failed e) = Unit

  AllReturned-imp :
      (P Q : Text → List AllowEntry → Type 0) (ts : List (TaskConfig Item)) (r : Found)
      → ((n : Text) (es : List AllowEntry) → P n es → Q n es)
      → AllReturned P ts r
      → AllReturned Q ts r
  AllReturned-imp P Q ts (tasks_at is) h k =
      All-imp (λ j. h (name_of_task ts j) (allow_list_of ts j)) is k
  AllReturned-imp P Q ts (failed e) h k = tt

  AllReturned-first :
      (P : Text → List AllowEntry → Type 0) (ts : List (TaskConfig Item)) (i : ℕ) (r : Found)
      → P (name_of_task ts i) (allow_list_of ts i)
      → AllReturned P ts r
      → AllReturned P ts (found_first i r)
  AllReturned-first P ts i (tasks_at is) h k = (h, k)
  AllReturned-first P ts i (failed e) h k = tt

  name_of_task-find_task :
      (name : Text) (ts : List (TaskConfig Item)) (i : ℕ)
      → find_task name ts ≡ some i
      → name_of_task ts i ≡ name
  unfolding find_task
  name_of_task-find_task name [] i e = cc
  name_of_task-find_task name (t ∷ ts) i e =
      first_or_later (λ k. name_of_task (t ∷ ts) k ≡ name) (eq_text t.name name) (find_task name ts)
        i e (eq_text_iff t.name name).0 (name_of_task-find_task name ts)

  allow_list_of-find_allowed :
      (s d : Text) (ts : List (TaskConfig Item)) (i : ℕ)
      → find_allowed s d ts ≡ some i
      → AllowsPath s d (allow_list_of ts i)
  unfolding find_allowed
  allow_list_of-find_allowed s d [] i e = cc
  allow_list_of-find_allowed s d (t ∷ ts) i e =
      first_or_later (λ k. AllowsPath s d (allow_list_of (t ∷ ts) k)) (allows s d t.allow_list)
        (find_allowed s d ts) i e (allows-AllowsPath s d t.allow_list)
        (allow_list_of-find_allowed s d ts)

  module _ (src dst : Item) where
    name_of_task-enrich :
        (ts : List (TaskConfig Item)) (i j : ℕ)
        → name_of_task (enrich_task_at src dst ts i) j ≡ name_of_task ts j
    unfolding enrich_task_at
    name_of_task-enrich [] i j = refl
    name_of_task-enrich (t ∷ ts) zero zero = refl
    name_of_task-enrich (t ∷ ts) zero (suc j) = refl
    name_of_task-enrich (t ∷ ts) (suc i) zero = refl
    name_of_task-enrich (t ∷ ts) (suc i) (suc j) = name_of_task-enrich ts i j

    allow_list_of-enrich :
        (ts : List (TaskConfig Item)) (i j : ℕ)
        → allow_list_of (enrich_task_at src dst ts i) j ≡ allow_list_of ts j
    unfolding enrich_task_at
    allow_list_of-enrich [] i j = refl
    allow_list_of-enrich (t ∷ ts) zero zero = refl
    allow_list_of-enrich (t ∷ ts) zero (suc j) = refl
    allow_list_of-enrich (t ∷ ts) (suc i) zero = refl
    allow_list_of-enrich (t ∷ ts) (suc i) (suc j) = allow_list_of-enrich ts i j

    name_of_task-run_names :
        (names : List Text) (ts : List (TaskConfig Item)) (j : ℕ)
        → name_of_task (run_names src dst names ts).0 j ≡ name_of_task ts j
    unfolding run_names
    name_of_task-run_names [] ts j = refl
    name_of_task-run_names (name ∷ names) ts j = elim (Option-cases (find_task name ts)) [
      | inl e ↦ ap (λ r. name_of_task r.0 j) (run_names-none src dst name names ts e)
      | inr f ↦
          ap (λ r. name_of_task r.0 j) (run_names-some src dst name names ts f.0 f.1)
          ∙ name_of_task-run_names names (enrich_task_at src dst ts f.0) j
          ∙ name_of_task-enrich ts f.0 j
    ]

    run_names-AllReturned :
        (Q : Text → Type 0) (names : List Text) (ts : List (TaskConfig Item))
        → All Q names
        → AllReturned (λ n es. Q n) (run_names src dst names ts).0 (run_names src dst names ts).1
    unfolding run_names
    run_names-AllReturned Q [] ts h = tt
    run_names-AllReturned Q (name ∷ names) ts h = elim (Option-cases (find_task name ts)) [
      | inl e ↦
          subst (λ r. AllReturned (λ n es. Q n) r.0 r.1)
            (sym (run_names-none src dst name names ts e)) tt
      | inr f ↦
          let next = enrich_task_at src dst ts f.0 in
          let named =
            name_of_task-run_names names next f.0
            ∙ name_of_task-enrich ts f.0 f.0
            ∙ name_of_task-find_task name ts f.0 f.1 in
          subst (λ r. AllReturned (λ n es. Q n) r.0 r.1)
            (sym (run_names-some src dst name names ts f.0 f.1))
            (AllReturned-first (λ n es. Q n) (run_names src dst names next).0 f.0
              (run_names src dst names next).1 (subst Q (sym named) h.0)
              (run_names-AllReturned Q names next h.1))
    ]

    run_pipelines-AllReturned :
        (s d : Text) (ps : List PipelineConfig) (ts : List (TaskConfig Item))
        → AllReturned
            (IsPathTask s d ps)
            (run_pipelines src dst s d ps ts).0
            (run_pipelines src dst s d ps ts).1
    unfolding run_pipelines
    run_pipelines-AllReturned s d [] ts = tt
    run_pipelines-AllReturned s d (p ∷ ps) ts = elim (Bool-cases (allows s d p.allow_list)) [
      | inl e ↦ rw e (
          AllReturned-imp (λ n es. Among n p.tasks) (IsPathTask s d (p ∷ ps))
            (run_names src dst p.tasks ts).0 (run_names src dst p.tasks ts).1
            (λ n es among. inr (p, ([], ps, refl), allows-AllowsPath s d p.allow_list e, among))
            (run_names-AllReturned (λ n. Among n p.tasks) p.tasks ts (All-Among p.tasks)))
      | inr e ↦ rw e (
          AllReturned-imp (IsPathTask s d ps) (IsPathTask s d (p ∷ ps))
            (run_pipelines src dst s d ps ts).0 (run_pipelines src dst s d ps ts).1 wider
            (run_pipelines-AllReturned s d ps ts))
    ]
      where
        wider :
            (n : Text) (es : List AllowEntry)
            → IsPathTask s d ps n es
            → IsPathTask s d (p ∷ ps) n es
        wider n es (inl h) = inl h
        wider n es (inr (q, among, h, k)) = inr (q, Among-cons p among, h, k)

    -- Each task that is returned is one of a path between the identifiers of the two assets.
    pub get_task_config-AllReturned :
        (id : Item → Text) (ps : List PipelineConfig) (ts : List (TaskConfig Item))
        → let result = get_task_config_by_src_dst_assets id src dst ps ts in
          AllReturned (IsPathTask (id src) (id dst) ps) result.0 result.1
    get_task_config-AllReturned id ps ts = elim (Option-cases (find_allowed (id src) (id dst) ts)) [
      | inl e ↦
          subst (λ r. AllReturned (IsPathTask (id src) (id dst) ps) r.0 r.1)
            (sym (get_task_config-pipeline id src dst ps ts e))
            (run_pipelines-AllReturned (id src) (id dst) ps ts)
      | inr f ↦
          subst (λ r. AllReturned (IsPathTask (id src) (id dst) ps) r.0 r.1)
            (sym (get_task_config-direct id src dst ps ts f.0 f.1))
            (
              inl (
                  subst (AllowsPath (id src) (id dst)) (sym (allow_list_of-enrich ts f.0 f.0))
                    (allow_list_of-find_allowed (id src) (id dst) ts f.0 f.1)),
              tt,
            )
    ]
