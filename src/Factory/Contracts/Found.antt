-- ===== src/Factory/Contracts/Found.antt =====
-- factory/main.go: what `cfgFromAssetByContract` returns.
use crosschain_enhanced_by_a.Prelude.{true, false, List, Option, none, some, ◌≡◌, ◌⊎◌, All}
use crosschain_enhanced_by_a.Prelude.Text.{Text}
use crosschain_enhanced_by_a.Asset.Config.{AssetConfig}
use crosschain_enhanced_by_a.Factory.Assets.{
  TokenCell, TaskRef, Answer, Factory, load, id_of, cfg_from_asset,
}
use crosschain_enhanced_by_a.Factory.Contracts.{config_of, matches, ask_contract_callback}

-- The items that are visited are registered, under their own identifiers.
abbrev pub IsVisit : Factory → List (Text × TaskRef) → Type 0
IsVisit f = All (λ e. (load e.0 f.all_assets ≡ some e.1) × (id_of f e.1 ≡ some e.0))

module _ (f : Factory) (contract native_asset : Text) where
  -- A registered item that matches.
  abbrev pub IsMatch : Text → TaskRef → Type 0
  IsMatch id item =
      (cfg : AssetConfig) × (load id f.all_assets ≡ some item)
      × (id_of f item ≡ some id)
      × (config_of f item ≡ some cfg)
      × (matches contract native_asset cfg ≡ true)

  abbrev pub IsOther : Text × TaskRef → Type 0
  IsOther e =
      (cfg : AssetConfig) × (config_of f e.1 ≡ some cfg)
      × (matches contract native_asset cfg ≡ false)

  -- The three outcomes of the loop: a panic, no item or a match.
  abbrev pub IsFound : List (Text × TaskRef) → Option (Option TaskRef) → Type 0
  IsFound order none = Unit
  IsFound order (some none) = All IsOther order
  IsFound order (some (some item)) = (id : Text) × IsMatch id item

module _ (copied : TokenCell → AssetConfig) (order : List (Text × TaskRef)) (f : Factory)
    (native_asset : Text) where
  -- The answer is the lookup of a match, or, where no visited item matches, the callback's or an error.
  abbrev pub Answers : Text → Factory × Answer → Type 0
  Answers contract s =
      ((id : Text) × (item : TaskRef) × IsMatch f contract native_asset id item
        × (cfg_from_asset copied f id ≡ some s))
      ⊎ (All (IsOther f contract native_asset) order
          × (ask_contract_callback f contract native_asset f.get_contract_callback ≡ some s))
