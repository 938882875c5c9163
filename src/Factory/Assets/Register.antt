-- ===== src/Factory/Assets/Register.antt =====
-- factory/main.go: the identifiers under which `PutAssetConfig` registers assets.
use crosschain_enhanced_by_a.Prelude.{
  List, [], ◌∷◌, Option, none, some, ◌≡◌, refl, ap, ap₂, sym, subst, ◌∙◌, ◌⊎◌, inl, inr, Bool-cases,
  Option-cases, All, All-imp,
}
use crosschain_enhanced_by_a.Prelude.Text.{Text, eq_text, eq_text_iff}
use crosschain_enhanced_by_a.Asset.Config.{AssetConfig}
use crosschain_enhanced_by_a.Asset.Id.{get_asset_id}
use crosschain_enhanced_by_a.Factory.Assets.{
  TokenCell, TaskRef, native, token, task, new_native, new_token, nil, Factory, Answer, load, store,
  put_asset_config, put_under, id_of,
}
use crosschain_enhanced_by_a.Factory.Assets.Cells.{load-store, load-store-other}
use crosschain_enhanced_by_a.Factory.Assets.Keeps.{Keeps, cfg_from_asset-Keeps}

id_of-Keeps : (f g : Factory) (r : TaskRef) → Keeps f g → id_of g r ≡ id_of f r
unfolding id_of
id_of-Keeps f g (native i) h = ap (λ a. some (get_asset_id [] a)) (h.1 i)
id_of-Keeps f g (token i) h = ap₂ (λ a c. some (get_asset_id a c)) (h.2 i) (h.3 i)
id_of-Keeps f g (task name src) h = refl
id_of-Keeps f g new_native h = refl
id_of-Keeps f g new_token h = refl
id_of-Keeps f g nil h = refl

-- Every item is registered under its own identifier.
abbrev pub IsKeyed : Factory → Type 0
IsKeyed f = All (λ e. id_of f e.1 ≡ some e.0) f.all_assets

All-store :
    (P : Text × TaskRef → Type 0) (id : Text) (item : TaskRef) (es : List (Text × TaskRef))
    → P (id, item)
    → All P es
    → All P (store id item es)
unfolding store
All-store P id item [] h k = (h, tt)
All-store P id item (e ∷ es) h k = elim (Bool-cases (eq_text e.0 id)) [
  | inl t ↦ rw t (h, k.1)
  | inr t ↦ rw t (k.0, All-store P id item es h k.1)
]

IsKeyed-Keeps : (f g : Factory) → Keeps f g → IsKeyed f → IsKeyed g
IsKeyed-Keeps f g h k =
    subst (All (λ e. id_of g e.1 ≡ some e.0)) (sym h.0)
      (All-imp (λ e own. id_of-Keeps f g e.1 h ∙ own) f.all_assets k)

-- Where every item is registered under its own identifier, `PutAssetConfig` keeps it so.
pub put_asset_config-IsKeyed :
    (copied : TokenCell → AssetConfig) (f : Factory) (item : TaskRef) (s : Factory × Answer)
    → IsKeyed f
    → put_asset_config copied f item ≡ some s
    → IsKeyed s.0
unfolding put_asset_config
put_asset_config-IsKeyed copied f item s k e = elim (Option-cases (id_of f item)) [
  | inl n ↦ absurd (no_id (sym (ap (put_under copied f item) n) ∙ e))
  | inr (id, own) ↦
      let g = record f { all_assets = store id item f.all_assets } in
      IsKeyed-Keeps g s.0
        (cfg_from_asset-Keeps copied g id s (sym (ap (put_under copied f item) own) ∙ e))
        (All-store (λ e. id_of f e.1 ≡ some e.0) id item f.all_assets own k)
]
  where
    no_id : ◌≡◌ {A = Option (Factory × Answer)} none (some s) → ⊥
    no_id q = cc

-- `PutAssetConfig` registers the item under its identifier, and what is registered under any other
-- identifier stays.
pub put_asset_config-load :
    (copied : TokenCell → AssetConfig) (f : Factory) (item : TaskRef) (s : Factory × Answer)
    (other : Text)
    → put_asset_config copied f item ≡ some s
    → (id : Text) × (id_of f item ≡ some id)
      × (load id s.0.all_assets ≡ some item)
      × ((id ≡ other) ⊎ (load other s.0.all_assets ≡ load other f.all_assets))
unfolding put_asset_config
put_asset_config-load copied f item s other e = elim (Option-cases (id_of f item)) [
  | inl n ↦ absurd (no_id (sym (ap (put_under copied f item) n) ∙ e))
  | inr (id, own) ↦
      let g = record f { all_assets = store id item f.all_assets } in
      let kept = cfg_from_asset-Keeps copied g id s (sym (ap (put_under copied f item) own) ∙ e) in
      (
        id,
        own,
        ap (load id) kept.0 ∙ load-store id item f.all_assets,
        elim (Bool-cases (eq_text id other)) [
          | inl t ↦ inl ((eq_text_iff id other).0 t)
          | inr t ↦ inr (ap (load other) kept.0 ∙ load-store-other id other item f.all_assets t)
        ],
      )
]
  where
    no_id : ◌≡◌ {A = Option (Factory × Answer)} none (some s) → ⊥
    no_id q = cc
