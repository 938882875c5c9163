-- ===== src/Asset.antt =====
-- asset.go: the names of assets, chains and drivers, and the switches over them.
-- A Go string is its list of bytes; a `switch` with several values in a case is `one_of`.
pub mod Config
pub mod Coherence
pub mod Id
use crosschain_enhanced_by_a.Prelude.{Bool, List, [], ◌∷◌, if◌then◌else◌}
use crosschain_enhanced_by_a.Prelude.Text.{Text, codes, one_of}

-- `AssetType`: native, token and task. It is a string in the source, empty when unset.
abbrev pub asset_type_native : Text
asset_type_native = codes "native"

abbrev pub asset_type_token : Text
asset_type_token = codes "token"

-- `ChainType`
pub data ChainType : Type 0 where
  unknown utxo account : ChainType

-- `SignatureType`; `unset` is the empty string that `SignatureAlgorithm` falls back to.
pub data SignatureType : Type 0 where
  k256 ed255 unset : SignatureType

-- The four UTXO chains: BCH, BTC, DOGE, LTC.
abbrev pub utxo_chains : List Text
utxo_chains = codes "BCH" ∷ codes "BTC" ∷ codes "DOGE" ∷ codes "LTC" ∷ []

-- The account chains, in the order of the `case` of `AssetType` and of `ChainType`.
abbrev pub account_chains : List Text
account_chains =
    codes "ACA"
    ∷ codes "APTOS"
    ∷ codes "ArbETH"
    ∷ codes "ATOM"
    ∷ codes "AurETH"
    ∷ codes "AVAX"
    ∷ codes "BNB"
    ∷ codes "CELO"
    ∷ codes "CHZ"
    ∷ codes "CHZ2"
    ∷ codes "ETC"
    ∷ codes "ETH"
    ∷ codes "ETHW"
    ∷ codes "FTM"
    ∷ codes "INJ"
    ∷ codes "KAR"
    ∷ codes "KLAY"
    ∷ codes "LUNA"
    ∷ codes "LUNC"
    ∷ codes "MATIC"
    ∷ codes "XDC"
    ∷ codes "OAS"
    ∷ codes "OasisROSE"
    ∷ codes "OptETH"
    ∷ codes "ROSE"
    ∷ codes "SOL"
    ∷ codes "SUI"
    ∷ codes "XPLA"
    ∷ []

-- `Asset.AssetType`
unfoldable pub asset_type : Text → Text
asset_type asset =
    if one_of asset utxo_chains
    then asset_type_native
    else if one_of asset account_chains
    then asset_type_native
    else asset_type_token

-- `NativeAsset.ChainType`
unfoldable pub chain_type : Text → ChainType
chain_type native =
    if one_of native utxo_chains
    then ChainType.utxo
    else if one_of native account_chains
    then ChainType.account
    else ChainType.unknown

-- `Driver`; it is a string in the source. `none` is the empty one, of no driver.
pub data Driver : Type 0 where
  aptos sui bitcoin cosmos cosmos_evmos evm evm_legacy solana : Driver
  none : Driver

abbrev pub evm_chains : List Text
evm_chains =
    codes "AVAX"
    ∷ codes "CELO"
    ∷ codes "ETH"
    ∷ codes "ETHW"
    ∷ codes "MATIC"
    ∷ codes "OasisROSE"
    ∷ codes "OptETH"
    ∷ []

abbrev pub evm_legacy_chains : List Text
evm_legacy_chains =
    codes "BNB"
    ∷ codes "FTM"
    ∷ codes "ETC"
    ∷ codes "ROSE"
    ∷ codes "AurETH"
    ∷ codes "ACA"
    ∷ codes "KAR"
    ∷ codes "KLAY"
    ∷ codes "OAS"
    ∷ codes "CHZ"
    ∷ codes "XDC"
    ∷ codes "CHZ2"
    ∷ []

abbrev pub cosmos_chains : List Text
cosmos_chains = codes "ATOM" ∷ codes "XPLA" ∷ codes "INJ" ∷ codes "LUNC" ∷ codes "LUNA" ∷ []

-- `NativeAsset.Driver`
unfoldable pub driver : Text → Driver
driver native =
    if one_of native utxo_chains
    then Driver.bitcoin
    else if one_of native evm_chains
    then Driver.evm
    else if one_of native evm_legacy_chains
    then Driver.evm_legacy
    else if one_of native (codes "APTOS" ∷ [])
    then Driver.aptos
    else if one_of native cosmos_chains
    then Driver.cosmos
    else if one_of native (codes "SUI" ∷ [])
    then Driver.sui
    else if one_of native (codes "SOL" ∷ [])
    then Driver.solana
    else Driver.none

-- `Driver.SignatureAlgorithm`
unfoldable pub signature_algorithm : Driver → SignatureType
signature_algorithm Driver.bitcoin = SignatureType.k256
signature_algorithm Driver.evm = SignatureType.k256
signature_algorithm Driver.evm_legacy = SignatureType.k256
signature_algorithm Driver.cosmos = SignatureType.k256
signature_algorithm Driver.cosmos_evmos = SignatureType.k256
signature_algorithm Driver.aptos = SignatureType.ed255
signature_algorithm Driver.solana = SignatureType.ed255
signature_algorithm Driver.sui = SignatureType.ed255
signature_algorithm Driver.none = SignatureType.unset

-- The value of a driver's string, as config files write it.
unfoldable pub driver_name : Driver → Text
driver_name Driver.aptos = codes "aptos"
driver_name Driver.sui = codes "sui"
driver_name Driver.bitcoin = codes "bitcoin"
driver_name Driver.cosmos = codes "cosmos"
driver_name Driver.cosmos_evmos = codes "evmos"
driver_name Driver.evm = codes "evm"
driver_name Driver.evm_legacy = codes "evm-legacy"
driver_name Driver.solana = codes "solana"
driver_name Driver.none = []

-- `SupportedDrivers`
abbrev pub supported_drivers : List Driver
supported_drivers =
    Driver.bitcoin ∷ Driver.cosmos ∷ Driver.cosmos_evmos ∷ Driver.evm ∷ Driver.evm_legacy
    ∷ Driver.solana ∷ Driver.sui ∷ Driver.aptos ∷ []

-- The driver that a string of a config names, as the switches of the factory read it.
unfoldable pub driver_of : Text → Driver
driver_of name =
    if one_of name (codes "aptos" ∷ [])
    then Driver.aptos
    else if one_of name (codes "sui" ∷ [])
    then Driver.sui
    else if one_of name (codes "bitcoin" ∷ [])
    then Driver.bitcoin
    else if one_of name (codes "cosmos" ∷ [])
    then Driver.cosmos
    else if one_of name (codes "evmos" ∷ [])
    then Driver.cosmos_evmos
    else if one_of name (codes "evm" ∷ [])
    then Driver.evm
    else if one_of name (codes "evm-legacy" ∷ [])
    then Driver.evm_legacy
    else if one_of name (codes "solana" ∷ [])
    then Driver.solana
    else Driver.none
