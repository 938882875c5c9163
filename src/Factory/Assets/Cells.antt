-- ===== src/Factory/Assets/Cells.antt =====
-- factory/main.go: what one call of `cfgFromAsset` does, by the entry that it finds.
use mathlib.Core.Path.{fun_ext}
use crosschain_enhanced_by_a.Prelude.{
  ℕ, false, List, [], ◌∷◌, some, ◌≡◌, refl, ap, ◌==◌, arith, inl, inr, Bool-cases,
}
use crosschain_enhanced_by_a.Prelude.Text.{Text, eq_text, eq_text_iff, eq_text_refl}
use crosschain_enhanced_by_a.Asset.Config.{AssetConfig}
use crosschain_enhanced_by_a.Factory.Assets.{
  TaskRef, update, load, store, with_native_asset, or_text,
}

module _ {ℓ} {A : Type ℓ} where
  pub update-same : (f : ℕ → A) (i : ℕ) (v : A) → update f i v i ≡ v
  update-same f i v = ground arith

  pub update-other : (f : ℕ → A) (i j : ℕ) (v : A) → (j == i) ≡ false → update f i v j ≡ f j
  update-other f i j v h = rw h refl

  -- The second of two writes to one cell is the one that lasts.
  pub update-update : (f : ℕ → A) (i : ℕ) (v w : A) → update (update f i v) i w ≡ update f i w
  update-update f i v w = fun_ext λ j. ground arith

pub load-store :
    (id : Text) (item : TaskRef) (es : List (Text × TaskRef))
    → load id (store id item es) ≡ some item
unfolding load store
load-store id item [] = rw (eq_text_refl id) refl
load-store id item (e ∷ es) = elim (Bool-cases (eq_text e.0 id)) [
  | inl h ↦ rw h (rw (eq_text_refl id) refl)
  | inr h ↦ rw h (rw h (load-store id item es))
]

pub load-store-other :
    (id other : Text) (item : TaskRef) (es : List (Text × TaskRef))
    → eq_text id other ≡ false
    → load other (store id item es) ≡ load other es
unfolding load store
load-store-other id other item [] h = rw h refl
load-store-other id other item (e ∷ es) h = elim (Bool-cases (eq_text e.0 id)) [
  | inl k ↦ rw k (rw ((eq_text_iff e.0 id).0 k) (rw h refl))
  | inr k ↦ rw k (rw (load-store-other id other item es h) refl)
]

or_text-or_text : (a b : Text) → or_text (or_text a b) b ≡ or_text a b
or_text-or_text [] [] = refl
or_text-or_text [] (x ∷ b) = refl
or_text-or_text (x ∷ a) b = refl

-- Filling in the native asset of a chain a second time changes nothing.
pub with_native_asset_twice :
    (c : AssetConfig) → with_native_asset (with_native_asset c) ≡ with_native_asset c
with_native_asset_twice c =
    ap (λ t. record c { native_asset = t }) (or_text-or_text c.native_asset c.asset)
