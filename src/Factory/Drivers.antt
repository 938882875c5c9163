-- ===== src/Factory/Drivers.antt =====
-- factory/main.go: the switches over the driver of an item, `newClient`, `newTxBuilder`, `newSigner`,
-- `newAddressBuilder` and that of `UnmarshalTxInput`. `none` is their error.
pub mod Coherence
use crosschain_enhanced_by_a.Prelude.{Option, none, some}
use crosschain_enhanced_by_a.Asset.{Driver}

-- The package that a case calls; the EVM package has a constructor for old chains too.
pub data Backend : Type 0 where
  evm evm_legacy cosmos solana aptos sui bitcoin : Backend

-- `newClient`
unfoldable pub new_client : Driver → Option Backend
new_client Driver.evm = some Backend.evm
new_client Driver.evm_legacy = some Backend.evm_legacy
new_client Driver.cosmos = some Backend.cosmos
new_client Driver.cosmos_evmos = some Backend.cosmos
new_client Driver.solana = some Backend.solana
new_client Driver.aptos = some Backend.aptos
new_client Driver.sui = some Backend.sui
new_client Driver.bitcoin = some Backend.bitcoin
new_client Driver.none = none

-- `newTxBuilder`
unfoldable pub new_tx_builder : Driver → Option Backend
new_tx_builder Driver.evm = some Backend.evm
new_tx_builder Driver.evm_legacy = some Backend.evm_legacy
new_tx_builder Driver.cosmos = some Backend.cosmos
new_tx_builder Driver.cosmos_evmos = some Backend.cosmos
new_tx_builder Driver.solana = some Backend.solana
new_tx_builder Driver.aptos = some Backend.aptos
new_tx_builder Driver.sui = some Backend.sui
new_tx_builder Driver.bitcoin = some Backend.bitcoin
new_tx_builder Driver.none = none

-- `newSigner`
unfoldable pub new_signer : Driver → Option Backend
new_signer Driver.evm = some Backend.evm
new_signer Driver.evm_legacy = some Backend.evm
new_signer Driver.cosmos = some Backend.cosmos
new_signer Driver.cosmos_evmos = some Backend.cosmos
new_signer Driver.solana = some Backend.solana
new_signer Driver.aptos = some Backend.aptos
new_signer Driver.bitcoin = some Backend.bitcoin
new_signer Driver.sui = some Backend.sui
new_signer Driver.none = none

-- `newAddressBuilder`
unfoldable pub new_address_builder : Driver → Option Backend
new_address_builder Driver.evm = some Backend.evm
new_address_builder Driver.evm_legacy = some Backend.evm
new_address_builder Driver.cosmos = some Backend.cosmos
new_address_builder Driver.cosmos_evmos = some Backend.cosmos
new_address_builder Driver.solana = some Backend.solana
new_address_builder Driver.aptos = some Backend.aptos
new_address_builder Driver.bitcoin = some Backend.bitcoin
new_address_builder Driver.sui = some Backend.sui
new_address_builder Driver.none = none

-- The package of the type that `UnmarshalTxInput` fills for the driver in an envelope.
unfoldable pub tx_input_type : Driver → Option Backend
tx_input_type Driver.aptos = some Backend.aptos
tx_input_type Driver.cosmos = some Backend.cosmos
tx_input_type Driver.cosmos_evmos = some Backend.cosmos
tx_input_type Driver.evm = some Backend.evm
tx_input_type Driver.evm_legacy = some Backend.evm
tx_input_type Driver.solana = some Backend.solana
tx_input_type Driver.bitcoin = some Backend.bitcoin
tx_input_type Driver.sui = some Backend.sui
tx_input_type Driver.none = none
