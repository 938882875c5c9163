-- ===== src/Errors.antt =====
-- client.go: the outcomes of a failed submission, and the classifiers `CheckError` of
-- chain/{bitcoin,evm,solana,cosmos,aptos}/errors.go and of factory/main.go. An error is its message.
pub mod Agreement
use crosschain_enhanced_by_a.Prelude.{Bool, false, ◌||◌, List, [], ◌∷◌, if◌then◌else◌}
use crosschain_enhanced_by_a.Prelude.Text.{Text, codes, contains, to_lower}
use crosschain_enhanced_by_a.Asset.{Driver}

-- `ClientError`
pub data ClientError : Type 0 where
  no_balance no_balance_for_gas transaction_failure : ClientError
  transaction_exists network_error unknown_error : ClientError

-- A chain of `strings.Contains(msg, …) || …`.
unfoldable pub contains_any : Text → List Text → Bool
contains_any msg [] = false
contains_any msg (p ∷ ps) = contains msg p || contains_any msg ps

abbrev pub underpriced : Text
underpriced = codes "transaction underpriced"

abbrev pub no_gas : Text
no_gas = codes "insufficient funds for gas * price + value"

abbrev pub no_funds : Text
no_funds = codes "insufficient funds for transfer"

abbrev pub network_failures : List Text
network_failures = codes "response body closed" ∷ codes "not found" ∷ codes "eof" ∷ []

abbrev pub already_there : List Text
already_there = codes "transaction already in block chain" ∷ codes "already known" ∷ []

-- `bitcoin.CheckError`
unfoldable pub bitcoin_check_error : Text → ClientError
bitcoin_check_error error =
    let msg = to_lower error in
    if contains_any msg (codes "txn-mempool-conflict" ∷ codes "bad-txns-inputs-missingorspent" ∷ [])
    then ClientError.transaction_failure
    else if contains_any msg (
        codes "response body closed"
        ∷ codes "not found"
        ∷ codes "could not find a result on blockchair"
        ∷ codes "eof"
        ∷ [])
    then ClientError.network_error
    else if contains_any msg already_there
    then ClientError.transaction_exists
    else ClientError.unknown_error

-- `evm.CheckError`
unfoldable pub evm_check_error : Text → ClientError
evm_check_error error =
    let msg = to_lower error in
    if contains msg no_gas
    then ClientError.no_balance_for_gas
    else if contains msg no_funds
    then ClientError.no_balance
    else if contains_any msg (underpriced ∷ network_failures)
    then ClientError.network_error
    else if contains_any msg already_there
    then ClientError.transaction_exists
    else ClientError.unknown_error

-- `solana.CheckError`
unfoldable pub solana_check_error : Text → ClientError
solana_check_error error =
    let msg = to_lower error in
    if contains msg underpriced
    then ClientError.transaction_failure
    else if contains msg no_gas
    then ClientError.no_balance_for_gas
    else if contains msg no_funds
    then ClientError.no_balance
    else if contains_any msg network_failures
    then ClientError.network_error
    else if contains_any msg already_there
    then ClientError.transaction_exists
    else ClientError.unknown_error

-- `cosmos.CheckError`
unfoldable pub cosmos_check_error : Text → ClientError
cosmos_check_error error =
    let msg = to_lower error in
    if contains msg underpriced
    then ClientError.transaction_failure
    else if contains msg no_gas
    then ClientError.no_balance_for_gas
    else if contains msg no_funds
    then ClientError.no_balance
    else if contains_any msg network_failures
    then ClientError.network_error
    else if contains_any msg already_there
    then ClientError.transaction_exists
    else ClientError.unknown_error

-- `aptos.CheckError`
unfoldable pub aptos_check_error : Text → ClientError
aptos_check_error error =
    let msg = to_lower error in
    if contains msg underpriced
    then ClientError.transaction_failure
    else if contains msg no_gas
    then ClientError.no_balance_for_gas
    else if contains msg no_funds
    then ClientError.no_balance
    else if contains_any msg network_failures
    then ClientError.network_error
    else if contains_any msg already_there
    then ClientError.transaction_exists
    else ClientError.unknown_error

-- `factory.CheckError`
unfoldable pub check_error : Driver → Text → ClientError
check_error Driver.evm error = evm_check_error error
check_error Driver.evm_legacy error = evm_check_error error
check_error Driver.cosmos error = cosmos_check_error error
check_error Driver.cosmos_evmos error = cosmos_check_error error
check_error Driver.solana error = solana_check_error error
check_error Driver.aptos error = aptos_check_error error
check_error Driver.bitcoin error = bitcoin_check_error error
check_error Driver.sui error = ClientError.unknown_error
check_error Driver.none error = ClientError.unknown_error
