-- ===== src/Factory/Lookup/Allowed.antt =====
-- factory/main.go: which tasks `cfgFromTask` returns, and for which assets.
use crosschain_enhanced_by_a.Prelude.{
  ℕ, zero, suc, get_elem?, arith, false≢true, true, false, sym, subst, ◌∙◌, List, [], ◌∷◌, ◌++◌,
  Option, none, some, ◌≡◌, refl, ap, ◌⊎◌, inl, inr, Bool-cases, All,
}
use crosschain_enhanced_by_a.Prelude.Text.{Text, codes, eq_text, eq_text_iff}
use crosschain_enhanced_by_a.Factory.Tasks.{AllowEntry, TaskConfig, find_task, next_index}
use crosschain_enhanced_by_a.Factory.Assets.{TaskRef, AssetError, Answer, Factory}
use crosschain_enhanced_by_a.Factory.Assets.Keeps.{Kept, Kept-after}
use crosschain_enhanced_by_a.Factory.Lookup.{allowed_dst, on_pair}

-- An entry that says nothing of an asset.
abbrev pub IsSilent : Text → AllowEntry → Type 0
IsSilent id e = (eq_text e.src (codes "*") ≡ false) × (eq_text e.src id ≡ false)

-- An entry that allows an asset, with the destination that it gives.
abbrev pub Allows : Text → AllowEntry → Text → Type 0
Allows id e dst =
    ((eq_text e.src (codes "*") ≡ true) × (dst ≡ id))
    ⊎ ((eq_text e.src (codes "*") ≡ false) × (eq_text e.src id ≡ true) × (dst ≡ e.dst))

-- No entry allows the asset, or the first that does gives the destination.
abbrev pub FirstAllows : Text → List AllowEntry → Option Text → Type 0
FirstAllows id es none = All (IsSilent id) es
FirstAllows id es (some dst) =
    (before : List AllowEntry) × (e : AllowEntry) × (after : List AllowEntry) × (es
      ≡ before ++ (e ∷ after))
    × All (IsSilent id) before
    × Allows id e dst

FirstAllows-cons :
    (id : Text) (e : AllowEntry) (es : List AllowEntry) (o : Option Text)
    → IsSilent id e
    → FirstAllows id es o
    → FirstAllows id (e ∷ es) o
FirstAllows-cons id e es none h k = (h, k)
FirstAllows-cons id e es (some dst) h (before, x, after, split, silent, allow) =
    (e ∷ before, x, after, ap (◌∷◌ e) split, (h, silent), allow)

-- The loop of `IsAllowedFunc` takes the first entry that is `*` or that names the asset: the
-- destination is the asset itself, or the one of the entry; without such an entry there is none.
pub allowed_dst-FirstAllows :
    (id : Text) (es : List AllowEntry) → FirstAllows id es (allowed_dst id es)
unfolding allowed_dst
allowed_dst-FirstAllows id [] = tt
allowed_dst-FirstAllows id (e ∷ es) = elim (Bool-cases (eq_text e.src (codes "*"))) [
  | inl h ↦ rw (allowed_dst, h) ([], e, es, refl, tt, inl (h, refl))
  | inr h ↦ elim (Bool-cases (eq_text e.src id)) [
    | inl k ↦ rw (allowed_dst, h, k) ([], e, es, refl, tt, inr (h, k, refl))
    | inr k ↦
        rw (allowed_dst, h, k)
          (FirstAllows-cons id e es (allowed_dst id es) (h, k) (allowed_dst-FirstAllows id es))
  ]
]

-- The first task with a name.
abbrev pub FirstNamed : Text → List (TaskConfig TaskRef) → TaskConfig TaskRef → Type 0
FirstNamed name ts t =
    (before : List (TaskConfig TaskRef)) × (after : List (TaskConfig TaskRef)) × (ts
      ≡ before ++ (t ∷ after))
    × All (λ (u : TaskConfig TaskRef). ¬ (u.name ≡ name)) before
    × (t.name ≡ name)

FirstNamed-cons :
    (name : Text) (u : TaskConfig TaskRef) (ts : List (TaskConfig TaskRef)) (t : TaskConfig TaskRef)
    → ¬ (u.name ≡ name)
    → FirstNamed name ts t
    → FirstNamed name (u ∷ ts) t
FirstNamed-cons name u ts t h (before, after, split, others, is) =
    (u ∷ before, after, ap (◌∷◌ u) split, (h, others), is)

-- `findTask` finds the first task with the name.
pub find_task-FirstNamed :
    (name : Text) (ts : List (TaskConfig TaskRef)) (i : ℕ) (t : TaskConfig TaskRef)
    → find_task name ts ≡ some i
    → get_elem? ts i ≡ some t
    → FirstNamed name ts t
unfolding find_task
find_task-FirstNamed name [] i t e g = cc
find_task-FirstNamed name (u ∷ ts) i t e g = elim (Bool-cases (eq_text u.name name)) [
  | inl h ↦ head_is i (some_injective (sym (rw h refl) ∙ e)) g h
  | inr h ↦
      tail_is (λ k. find_task-FirstNamed name ts k t) i (find_task name ts) refl
        (sym (rw h refl) ∙ e) g h
]
  where
    some_injective : {a b : ℕ} → ◌≡◌ {A = Option ℕ} (some a) (some b) → a ≡ b
    some_injective q = cc

    task_injective :
        {a b : TaskConfig TaskRef} → ◌≡◌ {A = Option (TaskConfig TaskRef)} (some a) (some b) → a ≡ b
    task_injective q = cc

    head_is :
        (i : ℕ)
        → zero ≡ i
        → get_elem? (u ∷ ts) i ≡ some t
        → eq_text u.name name ≡ true
        → FirstNamed name (u ∷ ts) t
    head_is zero z g h =
        subst (FirstNamed name (u ∷ ts)) (task_injective g)
          ([], ts, refl, tt, (eq_text_iff u.name name).0 h)
    head_is (suc i) z g h = absurd (omega (arith, z))

    tail_is :
        (later : (k : ℕ)
          → find_task name ts ≡ some k
          → get_elem? ts k ≡ some t
          → FirstNamed name ts t)
        (i : ℕ) (o : Option ℕ)
        → find_task name ts ≡ o
        → next_index o ≡ some i
        → get_elem? (u ∷ ts) i ≡ some t
        → eq_text u.name name ≡ false
        → FirstNamed name (u ∷ ts) t
    tail_is later i none f n g h = cc
    tail_is later zero (some j) f n g h = absurd (omega (arith, some_injective n))
    tail_is later (suc i) (some j) f n g h =
        let same : j ≡ i = omega (arith, some_injective n) in
        FirstNamed-cons name u ts t (λ is. false≢true (sym h ∙ (eq_text_iff u.name name).1 is))
          (later i (f ∙ ap (λ k. some k) same) g)

pub on_pair-eq-some :
    {A : Type 0} (r : Option (Factory × Answer))
    (next : Factory → TaskRef → Option AssetError → Option A) {s : A}
    → on_pair r next ≡ some s
    → (p : Factory × Answer) × (r ≡ some p) × (next p.0 p.1.0 p.1.1 ≡ some s)
on_pair-eq-some none next e = cc
on_pair-eq-some (some p) next e = (p, refl, e)

pub Kept-on_pair :
    {A : Type 0} (f : Factory) (r : Option (Factory × Answer))
    (next : Factory → TaskRef → Option AssetError → Option (Factory × A))
    → Kept f r
    → ((g : Factory) (item : TaskRef) (e : Option AssetError) → Kept g (next g item e))
    → Kept f (on_pair r next)
Kept-on_pair f none next h k = tt
Kept-on_pair f (some p) next h k = Kept-after f p.0 (next p.0 p.1.0 p.1.1) h (k p.0 p.1.0 p.1.1)
