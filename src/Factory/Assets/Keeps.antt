-- ===== src/Factory/Assets/Keeps.antt =====
-- factory/main.go: what no lookup and no enrichment of an asset changes.
use crosschain_enhanced_by_a.Prelude.{
  ℕ, Option, none, some, ◌≡◌, refl, ap, subst, ◌∙◌, ◌==◌, inl, inr, Bool-cases, Option-cases, arith,
}
use crosschain_enhanced_by_a.Prelude.Text.{Text, is_empty}
use crosschain_enhanced_by_a.Asset.Config.{AssetConfig}
use crosschain_enhanced_by_a.Factory.Assets.{
  TokenCell, TaskRef, native, token, task, new_native, new_token, nil, Factory, Answer, update,
  set_native, set_token, load, as_native, as_token, with_chain, with_native_asset, with_item,
  enrich_from, cfg_enrich_asset_config, cfg_from_asset, from_entry, AssetError,
}

-- The registered items, the names and chains of all assets, and the tasks.
abbrev pub Keeps : Factory → Factory → Type 0
Keeps f g =
    (g.all_assets ≡ f.all_assets)
    × ((j : ℕ) → (g.natives j).asset ≡ (f.natives j).asset)
    × ((j : ℕ) → (g.tokens j).asset ≡ (f.tokens j).asset)
    × ((j : ℕ) → (g.tokens j).chain ≡ (f.tokens j).chain)
    × (g.all_tasks ≡ f.all_tasks)
    × (g.all_pipelines ≡ f.all_pipelines)

pub Keeps-refl : (f : Factory) → Keeps f f
Keeps-refl f = (refl, λ j. refl, λ j. refl, λ j. refl, refl, refl)

pub Keeps-trans : (f g h : Factory) → Keeps f g → Keeps g h → Keeps f h
Keeps-trans f g h (a, b, c, d, p, q) (a', b', c', d', p', q') =
    (a' ∙ a, λ j. b' j ∙ b j, λ j. c' j ∙ c j, λ j. d' j ∙ d j, p' ∙ p, q' ∙ q)

update-keeps {ℓ κ} :
    {A : Type ℓ} {B : Type κ} (get : A → B) (f : ℕ → A) (i : ℕ) (v : A) (j : ℕ)
    → get v ≡ get (f i)
    → get (update f i v j) ≡ get (f j)
update-keeps get f i v j h = elim (Bool-cases (j == i)) [
  | inl e ↦ rw e (h ∙ ap (λ k. get (f k)) (ground (arith, e)))
  | inr e ↦ rw e refl
]

Keeps-set_native :
    (f : Factory) (i : ℕ) (c : AssetConfig)
    → c.asset ≡ (f.natives i).asset
    → Keeps f (set_native f i c)
Keeps-set_native f i c h =
    (refl, λ j. update-keeps (λ c. c.asset) f.natives i c j h, λ j. refl, λ j. refl, refl, refl)

Keeps-set_token :
    (f : Factory) (i : ℕ) (c : TokenCell)
    → c.asset ≡ (f.tokens i).asset
    → c.chain ≡ (f.tokens i).chain
    → Keeps f (set_token f i c)
Keeps-set_token f i c h k = (
  refl,
  λ j. refl,
  λ j. update-keeps (λ c. c.asset) f.tokens i c j h,
  λ j. update-keeps (λ c. c.chain) f.tokens i c j k,
  refl,
  refl,
)

-- A call that keeps them, where it does not panic.
abbrev pub Kept : {A : Type 0} → Factory → Option (Factory × A) → Type 0
Kept f none = Unit
Kept f (some s) = Keeps f s.0

Kept-enrich_from :
    (f : Factory) (i : ℕ) (c : TokenCell) (r : Option TaskRef)
    → c.asset ≡ (f.tokens i).asset
    → c.chain ≡ (f.tokens i).chain
    → Kept f (enrich_from f i c r)
unfolding enrich_from
Kept-enrich_from f i c none h k = Keeps-set_token f i c h k
Kept-enrich_from f i c (some (native n)) h k =
    Keeps-trans f (set_token f i cell)
      (set_native (set_token f i cell) n (with_native_asset (f.natives n)))
      (Keeps-set_token f i cell h k)
      (Keeps-set_native (set_token f i cell) n (with_native_asset (f.natives n)) refl)
  where
    cell : TokenCell
    cell = with_chain (f.natives n) n c
Kept-enrich_from f i c (some (token j)) h k = tt
Kept-enrich_from f i c (some (task name src)) h k = tt
Kept-enrich_from f i c (some new_native) h k = tt
Kept-enrich_from f i c (some new_token) h k = tt
Kept-enrich_from f i c (some nil) h k = tt

pub Kept-enrich : (f : Factory) (i : ℕ) → Kept f (cfg_enrich_asset_config f i)
unfolding cfg_enrich_asset_config
Kept-enrich f i = elim (Bool-cases (is_empty (f.tokens i).chain)) [
  | inl e ↦ rw (cfg_enrich_asset_config, e) (Keeps-refl f)
  | inr e ↦
      rw (cfg_enrich_asset_config, e)
        (Kept-enrich_from f i (as_token (f.tokens i)) (load (f.tokens i).chain f.all_assets) refl
          refl)
]

Kept-with_item :
    (f : Factory) (item : TaskRef) (o : Option (Factory × Option AssetError))
    → Kept f o
    → Kept f (with_item item o)
Kept-with_item f item none h = tt
Kept-with_item f item (some s) h = h

pub Kept-after :
    {A : Type 0} (f g : Factory) (o : Option (Factory × A)) → Keeps f g → Kept g o → Kept f o
Kept-after f g none h k = tt
Kept-after f g (some s) h k = Keeps-trans f g s.0 h k

pub Kept-from_entry :
    (copied : TokenCell → AssetConfig) (f : Factory) (id : Text) (r : Option TaskRef)
    → Kept f (from_entry copied f id r)
unfolding from_entry
Kept-from_entry copied f id none = elim (Option-cases f.get_asset_callback) [
  | inl e ↦ rw e (Keeps-refl f)
  | inr e ↦ rw e.1 (Keeps-refl f)
]
Kept-from_entry copied f id (some (native i)) = Keeps-set_native f i (as_native (f.natives i)) refl
Kept-from_entry copied f id (some (token i)) =
    Kept-after f start (with_item (token i) (cfg_enrich_asset_config start i))
      (Keeps-set_token f i (record (f.tokens i) { base = copied (f.tokens i) }) refl refl)
      (Kept-with_item start (token i) (cfg_enrich_asset_config start i) (Kept-enrich start i))
  where
    start : Factory
    start = set_token f i (record (f.tokens i) { base = copied (f.tokens i) })
Kept-from_entry copied f id (some (task name src)) = Keeps-refl f
Kept-from_entry copied f id (some new_native) = Keeps-refl f
Kept-from_entry copied f id (some new_token) = Keeps-refl f
Kept-from_entry copied f id (some nil) = Keeps-refl f

-- A call of `cfgFromAsset` changes neither which items are registered, nor the name or the chain of
-- an asset, nor the tasks.
pub cfg_from_asset-Keeps :
    (copied : TokenCell → AssetConfig) (f : Factory) (id : Text) (s : Factory × Answer)
    → cfg_from_asset copied f id ≡ some s
    → Keeps f s.0
unfolding cfg_from_asset
cfg_from_asset-Keeps copied f id s e =
    subst (Kept f) e (Kept-from_entry copied f id (load id f.all_assets))
