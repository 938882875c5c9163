-- ===== src/Asset/Id.antt =====
-- asset.go: `parseAssetAndNativeAsset` and `GetAssetIDFromAsset`.
pub mod RoundTrip
use crosschain_enhanced_by_a.Prelude.{
  Bool, true, false, not, ◌&&◌, List, [], ◌∷◌, ◌++◌, if◌then◌else◌,
}
use crosschain_enhanced_by_a.Prelude.Text.{Text, codes, eq_text, is_empty, split}
use crosschain_enhanced_by_a.Asset.{asset_type, asset_type_native}

-- `Asset(a).AssetType() == AssetTypeNative`
unfoldable pub is_native : Text → Bool
is_native a = eq_text (asset_type a) asset_type_native

-- The step on `assetSplit`: a suffix that is a native asset is taken off the asset.
unfoldable pub unqualify : Text → Text → List Text → Text × Text
unqualify asset native (symbol ∷ suffix ∷ []) =
    if is_native suffix
    then (symbol, if is_empty native then suffix else native)
    else (asset, native)
unqualify asset native parts = (asset, native)

-- The chain that is used where none was given.
unfoldable pub default_native : Text → Text → Text
default_native asset native =
    if is_empty native then (if is_native asset then asset else codes "ETH") else native

-- `parseAssetAndNativeAsset`
unfoldable pub parse_asset_and_native : Text → Text → Text × Text
unfolding unqualify default_native
parse_asset_and_native asset native =
    if is_empty asset && is_empty native
    then ([], [])
    else let start = if is_empty asset && not (is_empty native) then native else asset in
      let (a, n) = unqualify start native (split b'.' start) in (a, default_native a n)

-- What `GetAssetIDFromAsset` makes of the parsed pair.
unfoldable pub format_id : Text → Text → Text
format_id asset native =
    if eq_text asset native
    then asset
    else if eq_text native (codes "ETH") && not (is_native asset)
    then asset ++ codes ".ETH"
    else asset ++ (codes "." ++ native)

-- `GetAssetIDFromAsset`
unfoldable pub get_asset_id : Text → Text → Text
unfolding format_id
get_asset_id asset native = let (a, n) = parse_asset_and_native asset native in format_id a n
