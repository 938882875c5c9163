-- ===== src/Factory/Assets/Total.antt =====
-- factory/main.go: when `cfgFromAsset` does not panic.
use crosschain_enhanced_by_a.Prelude.{
  ℕ, List, [], ◌∷◌, Option, none, some, ◌≡◌, refl, ap₂, sym, subst, ◌∙◌, inl, inr, Bool-cases,
  Option-cases, All, All-imp,
}
use crosschain_enhanced_by_a.Prelude.Text.{Text, eq_text, is_empty}
use crosschain_enhanced_by_a.Asset.Config.{AssetConfig}
use crosschain_enhanced_by_a.Factory.Assets.{
  TokenCell, TaskRef, native, token, task, new_native, new_token, nil, Factory, Answer, load,
  set_token, as_token, with_item, enrich_from, cfg_enrich_asset_config, from_entry, cfg_from_asset,
  AssetError,
}
use crosschain_enhanced_by_a.Factory.Assets.Cells.{update-same}
use crosschain_enhanced_by_a.Factory.Assets.Keeps.{Keeps, cfg_from_asset-Keeps}

-- What may be registered for the chain of a token.
abbrev pub IsChain : Option TaskRef → Type 0
IsChain none = Unit
IsChain (some (native n)) = Unit
IsChain (some r) = ⊥

abbrev pub OnChain : Factory → TaskRef → Type 0
OnChain f (token i) = IsChain (load (f.tokens i).chain f.all_assets)
OnChain f r = Unit

-- The chain of each registered token is registered as a native asset, or not at all.
abbrev pub HasChains : Factory → Type 0
HasChains f = All (λ e. OnChain f e.1) f.all_assets

All-load :
    (P : TaskRef → Type 0) (id : Text) (item : TaskRef) (es : List (Text × TaskRef))
    → All (λ e. P e.1) es
    → load id es ≡ some item
    → P item
unfolding load
All-load P id item [] h e = cc
All-load P id item (x ∷ es) h e = elim (Bool-cases (eq_text x.0 id)) [
  | inl t ↦ subst P (some_injective (sym (rw t refl) ∙ e)) h.0
  | inr t ↦ All-load P id item es h.1 (sym (rw t refl) ∙ e)
]
  where
    some_injective : {a b : TaskRef} → ◌≡◌ {A = Option TaskRef} (some a) (some b) → a ≡ b
    some_injective q = cc

-- A call that does not panic.
abbrev pub Returns : {A : Type 0} → Option A → Type 0
Returns {A} o = (a : A) × (o ≡ some a)

Returns-enrich_from :
    (f : Factory) (i : ℕ) (c : TokenCell) (r : Option TaskRef)
    → IsChain r
    → Returns (enrich_from f i c r)
unfolding enrich_from
Returns-enrich_from f i c none h = (_, refl)
Returns-enrich_from f i c (some (native n)) h = (_, refl)
Returns-enrich_from f i c (some (token j)) h = absurd h
Returns-enrich_from f i c (some (task name src)) h = absurd h
Returns-enrich_from f i c (some new_native) h = absurd h
Returns-enrich_from f i c (some new_token) h = absurd h
Returns-enrich_from f i c (some nil) h = absurd h

Returns-enrich :
    (f : Factory) (i : ℕ)
    → IsChain (load (f.tokens i).chain f.all_assets)
    → Returns (cfg_enrich_asset_config f i)
unfolding cfg_enrich_asset_config
Returns-enrich f i h = elim (Bool-cases (is_empty (f.tokens i).chain)) [
  | inl e ↦ rw (cfg_enrich_asset_config, e) (_, refl)
  | inr e ↦
      rw (cfg_enrich_asset_config, e)
        (Returns-enrich_from f i (as_token (f.tokens i)) (load (f.tokens i).chain f.all_assets) h)
]

Returns-with_item :
    (item : TaskRef) (o : Option (Factory × Option AssetError))
    → Returns o
    → Returns (with_item item o)
Returns-with_item item none h = cc
Returns-with_item item (some s) h = (_, refl)

Returns-from_entry :
    (copied : TokenCell → AssetConfig) (f : Factory) (id : Text) (r : Option TaskRef)
    → ((item : TaskRef) → r ≡ some item → OnChain f item)
    → Returns (from_entry copied f id r)
unfolding from_entry
Returns-from_entry copied f id none h = elim (Option-cases f.get_asset_callback) [
  | inl e ↦ rw e (_, refl)
  | inr e ↦ rw e.1 (_, refl)
]
Returns-from_entry copied f id (some (native i)) h = (_, refl)
Returns-from_entry copied f id (some (token i)) h =
    Returns-with_item (token i) (cfg_enrich_asset_config start i) (
      Returns-enrich start i (
        subst (λ c. IsChain (load c.chain f.all_assets)) (sym (update-same f.tokens i cell))
          (h (token i) refl)))
  where
    cell : TokenCell
    cell = record (f.tokens i) { base = copied (f.tokens i) }

    start : Factory
    start = set_token f i cell
Returns-from_entry copied f id (some (task name src)) h = (_, refl)
Returns-from_entry copied f id (some new_native) h = (_, refl)
Returns-from_entry copied f id (some new_token) h = (_, refl)
Returns-from_entry copied f id (some nil) h = (_, refl)

OnChain-Keeps : (f g : Factory) (r : TaskRef) → Keeps f g → OnChain f r → OnChain g r
OnChain-Keeps f g (token i) h k = subst IsChain (sym (ap₂ load (h.3 i) h.0)) k
OnChain-Keeps f g (native i) h k = tt
OnChain-Keeps f g (task name src) h k = tt
OnChain-Keeps f g new_native h k = tt
OnChain-Keeps f g new_token h k = tt
OnChain-Keeps f g nil h k = tt

-- Where the chain of each registered token is registered as a native asset or not at all,
-- `cfgFromAsset` returns for every identifier, and leaves the factory so.
pub cfg_from_asset-Returns :
    (copied : TokenCell → AssetConfig) (f : Factory) (id : Text)
    → HasChains f
    → (s : Factory × Answer) × (cfg_from_asset copied f id ≡ some s) × HasChains s.0
unfolding cfg_from_asset
cfg_from_asset-Returns copied f id h =
    let (s, e) =
      Returns-from_entry copied f id (load id f.all_assets)
        (λ item. All-load (OnChain f) id item f.all_assets h) in
    let kept = cfg_from_asset-Keeps copied f id s e in
    (
      s,
      e,
      subst (All (λ e. OnChain s.0 e.1)) (sym kept.0)
          (All-imp (λ e. OnChain-Keeps f s.0 e.1 kept) f.all_assets h),
    )
