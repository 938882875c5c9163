-- ===== src/Factory/Contracts/Orders.antt =====
-- factory/main.go: the order in which `cfgFromAssetByContract` visits the assets.
use mathlib.Core.List.Permᴰ.{Permᴰ}
use crosschain_enhanced_by_a.Prelude.{
  false, List, ◌∷◌, Option, some, ◌≡◌, refl, ap, ap₂, sym, subst, ◌∙◌, ◌⊎◌, inl, inr, All,
}
use crosschain_enhanced_by_a.Prelude.Text.{Text}
use crosschain_enhanced_by_a.Asset.Config.{AssetConfig}
use crosschain_enhanced_by_a.Factory.Normalize.{normalize_address_string}
use crosschain_enhanced_by_a.Factory.Assets.{TokenCell, TaskRef, Factory}
use crosschain_enhanced_by_a.Factory.Contracts.{
  config_of, matches, visit, find_contract, from_contract, cfg_from_asset_by_contract,
}

All-permuted {ℓ κ} :
    {A : Type ℓ} (P : A → Type κ) {xs ys : List A} → Permᴰ xs ys → All P xs → All P ys
All-permuted P Permᴰ.nil h = tt
All-permuted P (Permᴰ.cons e d) h = (subst P e h.0, All-permuted P d h.1)
All-permuted P (Permᴰ.swap e d) h = (subst P d h.1.0, (subst P e h.0, h.1.1))
All-permuted P (Permᴰ.trans d c) h = All-permuted P c (All-permuted P d h)

module _ (f : Factory) (contract native_asset : Text) (only : TaskRef) where
  -- An item that has a configuration, and that matches only if it is the one.
  abbrev pub IsOnly : Text × TaskRef → Type 0
  IsOnly e =
      (cfg : AssetConfig) × (config_of f e.1 ≡ some cfg)
      × ((matches contract native_asset cfg ≡ false) ⊎ (e.1 ≡ only))

  abbrev step : Text × TaskRef → Option (Option TaskRef) → Option (Option TaskRef)
  step e = visit contract native_asset e.1 (config_of f e.1)

  pass :
      (e : Text × TaskRef) (cfg : AssetConfig) (r : Option (Option TaskRef))
      → config_of f e.1 ≡ some cfg
      → matches contract native_asset cfg ≡ false
      → step e r ≡ r
  pass e cfg r h k = rw (h, k) refl

  step-swap :
      (a b : Text × TaskRef) (r : Option (Option TaskRef))
      → IsOnly a
      → IsOnly b
      → step a (step b r) ≡ step b (step a r)
  step-swap a b r (c, h, inl k) p = pass a c (step b r) h k ∙ ap (step b) (sym (pass a c r h k))
  step-swap a b r p (d, h, inl k) = ap (step a) (pass b d r h k) ∙ sym (pass b d (step a r) h k)
  step-swap a b r (c, h, inr k) (d, g, inr l) =
      ap₂
        (λ x y.
          visit contract native_asset x (config_of f x)
            (visit contract native_asset y (config_of f y) r))
        (k ∙ sym l) (l ∙ sym k)

  find_contract_permuted :
      (xs ys : List (Text × TaskRef))
      → Permᴰ xs ys
      → All IsOnly xs
      → find_contract f contract native_asset xs ≡ find_contract f contract native_asset ys
  unfolding find_contract
  find_contract_permuted xs ys Permᴰ.nil h = refl
  find_contract_permuted (x ∷ xs) (y ∷ ys) (Permᴰ.cons e d) h =
      ap₂ step e (find_contract_permuted xs ys d h.1)
  find_contract_permuted (x ∷ y ∷ xs) (u ∷ v ∷ xs') (Permᴰ.swap e d) h =
      step-swap x y (find_contract f contract native_asset xs) h.0 h.1.0
      ∙ ap₂ (λ p q. step p (step q (find_contract f contract native_asset xs))) d e
  find_contract_permuted xs zs (Permᴰ.trans {l₂ = ys} d c) h =
      find_contract_permuted xs ys d h ∙ find_contract_permuted ys zs c (All-permuted IsOnly d h)

-- Where every item has a configuration and at most one item matches the contract, the order in which `cfgFromAssetByContract` visits the
-- items makes no difference.
pub cfg_from_asset_by_contract_permuted :
    (copied : TokenCell → AssetConfig) (f : Factory) (raw native_asset : Text) (only : TaskRef)
    (xs ys : List (Text × TaskRef))
    → Permᴰ xs ys
    → All (IsOnly f (normalize_address_string raw native_asset) native_asset only) xs
    → cfg_from_asset_by_contract copied xs f raw native_asset
      ≡ cfg_from_asset_by_contract copied ys f raw native_asset
unfolding cfg_from_asset_by_contract
cfg_from_asset_by_contract_permuted copied f raw native_asset only xs ys d h =
    let contract = normalize_address_string raw native_asset in
    ap (from_contract copied f contract native_asset)
      (find_contract_permuted f contract native_asset only xs ys d h)
