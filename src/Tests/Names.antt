-- ===== src/Tests/Names.antt =====
-- Tests of the names of chains, of asset identifiers, of parameters and of the classes of errors.
use crosschain_enhanced_by_a.Prelude.{true, [], ◌≡◌, inr, refl}
use crosschain_enhanced_by_a.Prelude.Text.{Text, codes, eq_text, one_of, to_lower, lower_byte}
use crosschain_enhanced_by_a.Asset.{asset_type}
use crosschain_enhanced_by_a.Asset.Id.{parse_asset_and_native, get_asset_id, is_native}
use crosschain_enhanced_by_a.Asset.Id.RoundTrip.{parse-get_asset_id, dotless}
use crosschain_enhanced_by_a.Factory.Normalize.{hex_chains}

sol_is_native : is_native (codes "SOL") ≡ true
unfolding is_native asset_type one_of eq_text
sol_is_native = refl

usdc_is_dotless : dotless (codes "USDC") ≡ true
unfolding dotless
usdc_is_dotless = refl

parse-get_asset_id_example :
    parse_asset_and_native (get_asset_id (codes "USDC") (codes "SOL")) []
    ≡ parse_asset_and_native (codes "USDC") (codes "SOL")
parse-get_asset_id_example =
    parse-get_asset_id (codes "USDC") (codes "SOL") usdc_is_dotless (inr sol_is_native)

abbrev low_price : Text
low_price = codes "Transaction underpriced"

eth_is_hex : one_of (codes "ETH") hex_chains ≡ true
unfolding one_of eq_text
eth_is_hex = refl

same_letters : to_lower (codes "aBcD") ≡ to_lower (codes "AbCd")
unfolding to_lower lower_byte
same_letters = refl
