-- ===== src/Factory/Contracts/ChainCoin.antt =====
-- factory/main.go: a lookup by `ChainCoin` after a lookup of the chain itself.
use crosschain_enhanced_by_a.Prelude.{ℕ, false, List, Option, some, ◌≡◌, refl, ap, sym, subst, ◌∙◌}
use crosschain_enhanced_by_a.Prelude.Text.{Text, eq_text, eq_text_refl}
use crosschain_enhanced_by_a.Asset.Config.{AssetConfig}
use crosschain_enhanced_by_a.Factory.Normalize.{normalize_address_string}
use crosschain_enhanced_by_a.Factory.Assets.{
  TokenCell, TaskRef, native, Answer, Factory, load, id_of, cfg_from_asset, from_entry, as_native,
}
use crosschain_enhanced_by_a.Factory.Assets.Cells.{update-same}
use crosschain_enhanced_by_a.Factory.Contracts.{
  config_of, matches, find_contract, from_id, from_contract, cfg_from_asset_by_contract,
}
use crosschain_enhanced_by_a.Factory.Contracts.Found.{IsOther}

matches-as_native :
    (contract : Text) (c : AssetConfig)
    → matches contract c.asset (as_native c)
      ≡ eq_text (normalize_address_string c.contract c.asset) contract
unfolding matches
matches-as_native contract c = rw (matches, eq_text_refl c.asset) refl

module _ (copied : TokenCell → AssetConfig) (f : Factory) (i : ℕ) where
  -- After a lookup of a native asset, only its `Contract` is compared with a contract, and its
  -- `ChainCoin` is not.
  pub cfg_from_asset-matches :
      (id contract : Text) (s : Factory × Answer)
      → load id f.all_assets ≡ some (native i)
      → cfg_from_asset copied f id ≡ some s
      → matches contract (f.natives i).asset (s.0.natives i)
        ≡ eq_text (normalize_address_string (f.natives i).contract (f.natives i).asset) contract
  unfolding cfg_from_asset from_entry
  cfg_from_asset-matches id contract s h e =
      subst
        (λ r.
          matches contract (f.natives i).asset (r.0.natives i)
          ≡ eq_text (normalize_address_string (f.natives i).contract (f.natives i).asset) contract)
        (some_injective (sym (ap (from_entry copied f id) h) ∙ e))
        (ap (matches contract (f.natives i).asset)
            (update-same f.natives i (as_native (f.natives i)))
          ∙ matches-as_native contract (f.natives i))
    where
      some_injective :
          {a b : Factory × Answer} → ◌≡◌ {A = Option (Factory × Answer)} (some a) (some b) → a ≡ b
      some_injective q = cc

  -- A native asset that is registered under its identifier, that `cfgFromAssetByContract` finds for its
  -- own chain, and whose `Contract` is not
  -- the one that is asked for, does not match that contract any more afterwards.
  pub cfg_from_asset_by_contract-forgets :
      (order : List (Text × TaskRef)) (id raw native_asset : Text) (s : Factory × Answer)
      → load id f.all_assets ≡ some (native i)
      → id_of f (native i) ≡ some id
      → (f.natives i).asset ≡ native_asset
      → eq_text
          (normalize_address_string (f.natives i).contract native_asset)
          (normalize_address_string raw native_asset)
        ≡ false
      → find_contract f (normalize_address_string raw native_asset) native_asset order
        ≡ some (some (native i))
      → cfg_from_asset_by_contract copied order f raw native_asset ≡ some s
      → IsOther s.0 (normalize_address_string raw native_asset) native_asset (id, native i)
  unfolding cfg_from_asset_by_contract from_contract config_of
  cfg_from_asset_by_contract-forgets order id raw native_asset s h own same other found e =
      let contract = normalize_address_string raw native_asset in
      let looked_up =
        sym (ap (from_contract copied f contract native_asset) found ∙ ap (from_id copied f) own)
        ∙ e in
      (
        _,
        refl,
        subst
            (λ n.
              eq_text (normalize_address_string (f.natives i).contract n) contract ≡ false
              → matches contract n (s.0.natives i) ≡ false)
            same (λ o. cfg_from_asset-matches id contract s h looked_up ∙ o) other,
      )
