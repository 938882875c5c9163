-- ===== src/Factory/Lookup/Granted.antt =====
-- factory/main.go: the tasks that `cfgFromTask` returns, and what it leaves unchanged.
use crosschain_enhanced_by_a.Prelude.{
  ℕ, false, [], Option, none, some, ◌≡◌, refl, ap, sym, subst, ◌∙◌, inl, inr, Bool-cases,
  Option-cases, get_elem?,
}
use crosschain_enhanced_by_a.Prelude.Text.{Text, is_empty}
use crosschain_enhanced_by_a.Asset.Config.{AssetConfig}
use crosschain_enhanced_by_a.Asset.Id.{get_asset_id}
use crosschain_enhanced_by_a.Factory.Tasks.{TaskConfig, find_task}
use crosschain_enhanced_by_a.Factory.Assets.{
  TokenCell, TaskRef, AssetError, Answer, Factory, cfg_from_asset, load,
}
use crosschain_enhanced_by_a.Factory.Assets.Keeps.{Keeps, Keeps-refl, Kept, Kept-from_entry}
use crosschain_enhanced_by_a.Factory.Lookup.{
  TaskAnswer, new_task, shared_task, LookupError, Reply, allowed_dst, with_src, enrich_src,
  enrich_task, from_allowed, at_task, from_task, by_task_name, cfg_from_task,
}
use crosschain_enhanced_by_a.Factory.Lookup.Allowed.{
  FirstAllows, allowed_dst-FirstAllows, FirstNamed, find_task-FirstNamed, on_pair-eq-some,
  Kept-on_pair,
}

module _ (copied : TokenCell → AssetConfig) where
  pub Kept-asset : (f : Factory) (id : Text) → Kept f (cfg_from_asset copied f id)
  unfolding cfg_from_asset
  Kept-asset f id = Kept-from_entry copied f id (load id f.all_assets)

  Kept-with_src :
      (f : Factory) (t : TaskConfig TaskRef) (dst : TaskRef) (o : Option (Factory × Answer))
      → Kept f o
      → Kept f (with_src t dst o)
  Kept-with_src f t dst none h = tt
  Kept-with_src f t dst (some s) h = h

  Kept-enrich_src :
      (i : ℕ) (t : TaskConfig TaskRef) (src : Text) (f : Factory) (item : TaskRef)
      (e : Option AssetError)
      → Kept f (enrich_src copied i t src f item e)
  unfolding enrich_src
  Kept-enrich_src i t src f item (some e) = Keeps-refl f
  Kept-enrich_src i t src f item none =
      Kept-with_src f t item (cfg_from_asset copied f src) (Kept-asset f src)

  Kept-from_allowed :
      (f : Factory) (i : ℕ) (t : TaskConfig TaskRef) (id : Text) (o : Option Text)
      → Kept f (from_allowed copied f i t id o)
  unfolding enrich_task
  Kept-from_allowed f i t id none = Keeps-refl f
  Kept-from_allowed f i t id (some dst) =
      Kept-on_pair f (cfg_from_asset copied f dst) (enrich_src copied i t id) (Kept-asset f dst)
        (Kept-enrich_src i t id)

  Kept-from_task :
      (f : Factory) (name id : Text) (o : Option ℕ) → Kept f (from_task copied f name id o)
  Kept-from_task f name id none = Keeps-refl f
  Kept-from_task f name id (some i) = elim (Option-cases (get_elem? f.all_tasks i)) [
    | inl e ↦ subst (λ o. Kept f (at_task copied f i id o)) (sym e) tt
    | inr (t, e) ↦
        subst (λ o. Kept f (at_task copied f i id o)) (sym e)
          (Kept-from_allowed f i t id (allowed_dst id t.allow_list))
  ]

  Kept-by_task_name :
      (name id : Text) (f : Factory) (item : TaskRef) (e : Option AssetError)
      → Kept f (by_task_name copied name id f item e)
  unfolding by_task_name
  Kept-by_task_name name id f item e = elim (Bool-cases (is_empty name)) [
    | inl h ↦ rw (by_task_name, h) (Keeps-refl f)
    | inr h ↦ rw (by_task_name, h) (Kept-from_task f name id (find_task name f.all_tasks))
  ]

  -- `cfgFromTask` changes neither the tasks that all calls share nor which assets are registered.
  pub cfg_from_task-Keeps :
      (f : Factory) (name raw : Text) (s : Factory × Reply)
      → cfg_from_task copied f name raw ≡ some s
      → Keeps f s.0
  unfolding cfg_from_task
  cfg_from_task-Keeps f name raw s e =
      let id = get_asset_id raw [] in
      subst (Kept f) e (
        Kept-on_pair f (cfg_from_asset copied f id) (by_task_name copied name id) (Kept-asset f id)
          (Kept-by_task_name name id))

  -- A copy of the first task of the configuration with a name, whose list allows an asset, with the
  -- asset and the destination that the first entry for it gives. The asset is looked up, then the
  -- destination, then the asset again, each in the state that the lookup before it leaves.
  abbrev pub IsGranted : Factory → Text → Text → Factory × Reply → Type 0
  IsGranted f name id s =
      (t : TaskConfig TaskRef) × (dst : Text) × (src_item : TaskRef) × (dst_item : TaskRef)
      × (p : Factory × Answer) × (h : Factory) × (ignored : Option AssetError) × FirstNamed name
          f.all_tasks t
      × FirstAllows id t.allow_list (some dst)
      × (cfg_from_asset copied f id ≡ some p)
      × (cfg_from_asset copied p.0 dst ≡ some (h, (dst_item, none)))
      × (cfg_from_asset copied h id ≡ some (s.0, (src_item, ignored)))
      × (s.1 ≡ (new_task (record t { src_asset = some src_item; dst_asset = some dst_item }), none))

  -- The reply has no error.
  abbrev pub IsOk : Reply → Type 0
  IsOk r = r.1 ≡ none

  with_src-eq :
      (t : TaskConfig TaskRef) (dst : TaskRef) (o : Option (Factory × Answer)) {s : Factory × Reply}
      → with_src t dst o ≡ some s
      → (p : Factory × Answer) × (o ≡ some p)
        × (s ≡ (p.0, (new_task (record t { src_asset = some p.1.0; dst_asset = some dst }), none)))
  with_src-eq t dst none e = cc
  with_src-eq t dst (some p) e = (p, refl, some_injective (sym e))
    where
      some_injective :
          {a b : Factory × Reply} → ◌≡◌ {A = Option (Factory × Reply)} (some a) (some b) → a ≡ b
      some_injective q = cc

  refused :
      {A : Type 0} (g : Factory) (a : TaskAnswer) (e : LookupError) (s : Factory × Reply)
      → ◌≡◌ {A = Option (Factory × Reply)} (some (g, (a, some e))) (some s)
      → IsOk s.1
      → A
  refused g a e s same ok = absurd (no_error (ap (λ o. error_of o) same ∙ ok))
    where
      error_of : Option (Factory × Reply) → Option LookupError
      error_of none = none
      error_of (some p) = p.1.1

      no_error : ◌≡◌ {A = Option LookupError} (some e) none → ⊥
      no_error q = cc

  -- The last two steps, for a destination.
  enrich_src-IsGranted :
      (f : Factory) (first : Factory × Answer) (name id dst : Text) (i : ℕ) (t : TaskConfig TaskRef)
      (p : Factory × Answer) (s : Factory × Reply)
      → cfg_from_asset copied f id ≡ some first
      → FirstNamed name f.all_tasks t
      → FirstAllows id t.allow_list (some dst)
      → cfg_from_asset copied first.0 dst ≡ some p
      → enrich_src copied i t id p.0 p.1.0 p.1.1 ≡ some s
      → IsOk s.1
      → IsGranted f name id s
  unfolding enrich_src
  enrich_src-IsGranted f first name id dst i t (g, (item, some e)) s k a b d q ok =
      refused g (shared_task i) (LookupError.unenriched e) s q ok
  enrich_src-IsGranted f first name id dst i t (g, (item, none)) s k a b d q ok =
      let (p, known, same) = with_src-eq t item (cfg_from_asset copied g id) q in
      (
        t,
        dst,
        p.1.0,
        item,
        first,
        g,
        p.1.1,
        a,
        b,
        k,
        d,
        known ∙ ap (λ r. some (r, p.1)) (sym (ap (λ r. r.0) same)),
        ap (λ r. r.1) same,
      )

  from_allowed-IsGranted :
      (f : Factory) (first : Factory × Answer) (name id : Text) (i : ℕ) (t : TaskConfig TaskRef)
      (o : Option Text) (s : Factory × Reply)
      → cfg_from_asset copied f id ≡ some first
      → FirstNamed name f.all_tasks t
      → FirstAllows id t.allow_list o
      → from_allowed copied first.0 i t id o ≡ some s
      → IsOk s.1
      → IsGranted f name id s
  unfolding enrich_task
  from_allowed-IsGranted f first name id i t none s k a b q ok =
      refused first.0 (shared_task i) (LookupError.not_allowed id) s q ok
  from_allowed-IsGranted f first name id i t (some dst) s k a b q ok =
      let (p, known, rest) =
        on_pair-eq-some (cfg_from_asset copied first.0 dst) (enrich_src copied i t id) q in
      enrich_src-IsGranted f first name id dst i t p s k a b known rest ok

  from_task-IsGranted :
      (f : Factory) (first : Factory × Answer) (name id : Text) (o : Option ℕ) (s : Factory × Reply)
      → cfg_from_asset copied f id ≡ some first
      → first.0.all_tasks ≡ f.all_tasks
      → find_task name f.all_tasks ≡ o
      → from_task copied first.0 name id o ≡ some s
      → IsOk s.1
      → IsGranted f name id s
  from_task-IsGranted f first name id none s k same a q ok =
      refused first.0 TaskAnswer.empty_task (LookupError.unknown_task name) s q ok
  from_task-IsGranted f first name id (some i) s k same a q ok =
      elim (Option-cases (get_elem? f.all_tasks i)) [
        | inl n ↦ absurd (
            no_task
              (sym (ap (at_task copied first.0 i id) (ap (λ ts. get_elem? ts i) same ∙ n)) ∙ q))
        | inr (t, n) ↦
            from_allowed-IsGranted f first name id i t (allowed_dst id t.allow_list) s k
              (find_task-FirstNamed name f.all_tasks i t a n)
              (allowed_dst-FirstAllows id t.allow_list)
              (sym (ap (at_task copied first.0 i id) (ap (λ ts. get_elem? ts i) same ∙ n)) ∙ q) ok
      ]
    where
      no_task : ◌≡◌ {A = Option (Factory × Reply)} none (some s) → ⊥
      no_task q = cc

  by_task_name-named :
      (name id : Text) (f : Factory) (item : TaskRef) (e : Option AssetError)
      → is_empty name ≡ false
      → by_task_name copied name id f item e
        ≡ from_task copied f name id (find_task name f.all_tasks)
  unfolding by_task_name
  by_task_name-named name id f item e h = rw (by_task_name, h) refl

  -- For a name, `cfgFromTask` returns without an error only a copy of the first task with that name, when
  -- an entry of its list is `*` or names the asset; the destination is the one that the first such entry
  -- gives, which for `*` is the asset itself. The copy has the two assets as `cfgFromAsset` returns
  -- them, the destination without an error.
  pub cfg_from_task-IsGranted :
      (f : Factory) (name raw : Text) (s : Factory × Reply)
      → is_empty name ≡ false
      → cfg_from_task copied f name raw ≡ some s
      → s.1.1 ≡ none
      → IsGranted f name (get_asset_id raw []) s
  unfolding cfg_from_task
  cfg_from_task-IsGranted f name raw s named e ok =
      let id = get_asset_id raw [] in
      let (p, known, rest) =
        on_pair-eq-some (cfg_from_asset copied f id) (by_task_name copied name id) e in
      let same = subst (Kept f) known (Kept-asset f id) in
      from_task-IsGranted f p name id (find_task name f.all_tasks) s known same.4 refl
        (ap (λ ts. from_task copied p.0 name id (find_task name ts)) (sym same.4)
          ∙ sym (by_task_name-named name id p.0 p.1.0 p.1.1 named)
          ∙ rest)
        ok
