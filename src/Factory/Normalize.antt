-- ===== src/Factory/Normalize.antt =====
-- factory/main.go: `NormalizeMoveAddress`, `NormalizeAddressString` and
-- `NormalizeAddressStringByDriver`.
pub mod Case
use crosschain_enhanced_by_a.Prelude.{
  ℕ, Bool, true, false, not, ◌||◌, ◌&&◌, List, [], ◌∷◌, ◌++◌, if◌then◌else◌, leb, ◌==◌,
}
use crosschain_enhanced_by_a.Prelude.Text.{
  Text, codes, eq_text, is_empty, one_of, has_prefix, contains, to_lower, trim_space, split,
  replace_first,
}
use crosschain_enhanced_by_a.Asset.{Driver}

-- The class `[0-9a-fA-F]`.
unfoldable pub is_hex_digit : ℕ → Bool
is_hex_digit c =
    (leb b'0' c && leb c b'9') || (leb b'a' c && leb c b'f') || (leb b'A' c && leb c b'F')

-- The longest prefix of hexadecimal digits.
unfoldable pub hex_digits : Text → Text
unfolding is_hex_digit
hex_digits [] = []
hex_digits (c ∷ s) = let rest = hex_digits s in if is_hex_digit c then c ∷ rest else []

-- A match of `0[xX][0-9a-fA-F]+` at the head of a text; none is the empty text.
unfoldable pub hex_here : Text → Text
unfolding hex_digits
hex_here (z ∷ x ∷ s) =
    let digits = hex_digits s in
    if (z == b'0' && (x == b'x' || x == b'X')) && not (is_empty digits) then z ∷ x ∷ digits else []
hex_here _ = []

-- `r.FindString(address)`: the leftmost match, with as many digits as follow.
unfoldable pub find_hex : Text → Text
unfolding hex_here
find_hex [] = []
find_hex (c ∷ s) =
    let here = hex_here (c ∷ s) in let later = find_hex s in if is_empty here then later else here

-- `NormalizeMoveAddress`
unfoldable pub normalize_move_address : Text → Text
unfolding find_hex replace_first to_lower
normalize_move_address address =
    let inner = replace_first (replace_first address (codes "coin::Coin<") []) (codes ">") [] in
    let match = find_hex inner in
    if is_empty match then inner else replace_first inner match (to_lower match)

-- The chains whose addresses are hexadecimal.
abbrev pub hex_chains : List Text
hex_chains =
    codes "ETH"
    ∷ codes "AVAX"
    ∷ codes "ArbETH"
    ∷ codes "CELO"
    ∷ codes "MATIC"
    ∷ codes "OptETH"
    ∷ codes "ETC"
    ∷ codes "FTM"
    ∷ codes "BNB"
    ∷ codes "ROSE"
    ∷ codes "ACA"
    ∷ codes "KAR"
    ∷ codes "KLAY"
    ∷ codes "AurETH"
    ∷ codes "CHZ"
    ∷ codes "CHZ2"
    ∷ codes "OAS"
    ∷ []

-- `strings.Split(address, ":")[1]`, where there is a colon.
abbrev pub second : List Text → Text
second (a ∷ b ∷ rest) = b
second _ = []

unfoldable pub after_colon : Text → Text
unfolding contains split
after_colon address = if contains address (codes ":") then second (split b':' address) else address

-- `NormalizeAddressString`
unfoldable pub normalize_address_string : Text → Text → Text
unfolding trim_space has_prefix to_lower one_of eq_text normalize_move_address after_colon
normalize_address_string raw native_asset =
    let native = if is_empty native_asset then codes "ETH" else native_asset in
    let address = trim_space raw in
    if one_of native hex_chains
    then (if has_prefix address (codes "0x") then to_lower address else address)
    else if eq_text native (codes "XDC")
    then (if has_prefix address (codes "0x") || has_prefix address (codes "xdc")
        then to_lower address
        else address)
    else if eq_text native (codes "BCH")
    then after_colon address
    else if one_of native (codes "APTOS" ∷ codes "SUI" ∷ [])
    then normalize_move_address address
    else address

-- The case of the two EVM drivers of `NormalizeAddressStringByDriver`.
abbrev pub lower_hex_or_xdc : Text → Text
lower_hex_or_xdc address =
    if has_prefix address (codes "0x")
    then to_lower address
    else if has_prefix address (codes "xdc")
    then to_lower address
    else address

-- `NormalizeAddressStringByDriver`
unfoldable pub normalize_address_string_by_driver : Text → Driver → Text
unfolding trim_space has_prefix to_lower normalize_move_address after_colon
normalize_address_string_by_driver raw Driver.evm = lower_hex_or_xdc (trim_space raw)
normalize_address_string_by_driver raw Driver.evm_legacy = lower_hex_or_xdc (trim_space raw)
normalize_address_string_by_driver raw Driver.bitcoin = after_colon (trim_space raw)
normalize_address_string_by_driver raw Driver.aptos = normalize_move_address (trim_space raw)
normalize_address_string_by_driver raw Driver.sui = normalize_move_address (trim_space raw)
normalize_address_string_by_driver raw _ = trim_space raw
