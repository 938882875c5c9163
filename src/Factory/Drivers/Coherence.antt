-- ===== src/Factory/Drivers/Coherence.antt =====
-- factory/main.go: the switches over the drivers agree with one another, and with the names of the
-- chains of asset.go.
use crosschain_enhanced_by_a.Prelude.{◌≡◌, ◌↔◌, ◌⊎◌, refl, Option, none, some, arith}
use crosschain_enhanced_by_a.Prelude.Text.{Text, codes}
use crosschain_enhanced_by_a.Asset.{
  Driver, driver, chain_type, ChainType, signature_algorithm, SignatureType,
}
use crosschain_enhanced_by_a.Asset.Coherence.{driver-chain_type}
use crosschain_enhanced_by_a.Factory.Drivers.{
  Backend, new_client, new_tx_builder, new_signer, new_address_builder, tx_input_type,
}

-- The old chains of a package are the package's.
abbrev pub modern : Backend → Backend
modern Backend.evm_legacy = Backend.evm
modern b = b

abbrev pub modern_of : Option Backend → Option Backend
modern_of none = none
modern_of (some b) = some (modern b)

-- For every driver a client and a transaction builder come from one backend, and the signer, the
-- address builder and the type of the input come from that backend's package.
pub new_client-same :
    (d : Driver)
    → (new_tx_builder d ≡ new_client d)
      × (new_signer d ≡ modern_of (new_client d))
      × (new_address_builder d ≡ modern_of (new_client d))
      × (tx_input_type d ≡ modern_of (new_client d))
unfolding new_client new_tx_builder new_signer new_address_builder tx_input_type
new_client-same Driver.evm = (refl, refl, refl, refl)
new_client-same Driver.evm_legacy = (refl, refl, refl, refl)
new_client-same Driver.cosmos = (refl, refl, refl, refl)
new_client-same Driver.cosmos_evmos = (refl, refl, refl, refl)
new_client-same Driver.solana = (refl, refl, refl, refl)
new_client-same Driver.aptos = (refl, refl, refl, refl)
new_client-same Driver.sui = (refl, refl, refl, refl)
new_client-same Driver.bitcoin = (refl, refl, refl, refl)
new_client-same Driver.none = (refl, refl, refl, refl)

new_client-none_iff : (d : Driver) → (new_client d ≡ none) ↔ (d ≡ Driver.none)
unfolding new_client
new_client-none_iff d = ground arith

new_client-algorithm :
    (d : Driver) → (signature_algorithm d ≡ SignatureType.unset) ↔ (new_client d ≡ none)
unfolding new_client signature_algorithm
new_client-algorithm d = ground arith

-- A chain has no client exactly if it is of no known chain type or is ArbETH, and exactly then its
-- driver has no signature algorithm.
pub new_client-chain_type :
    (a : Text)
    → ((new_client (driver a) ≡ none) ↔ ((chain_type a ≡ ChainType.unknown) ⊎ (a ≡ codes "ArbETH")))
      × ((signature_algorithm (driver a) ≡ SignatureType.unset) ↔ (new_client (driver a) ≡ none))
new_client-chain_type a =
    let names = (driver-chain_type a).0 in
    let drivers = new_client-none_iff (driver a) in
    ((λ h. names.0 (drivers.0 h), λ h. drivers.1 (names.1 h)), new_client-algorithm (driver a))
