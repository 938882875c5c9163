-- ===== src/Errors/Agreement.antt =====
-- chain/*/errors.go: where the classifiers of the chains agree, and what they do not look at.
use crosschain_enhanced_by_a.Prelude.{
  ℕ, true, false, [], ◌∷◌, ◌≡◌, refl, ap₂, ◌⊎◌, inl, inr, arith, if◌then◌else◌, Bool-cases,
}
use crosschain_enhanced_by_a.Prelude.Text.{Text, contains, to_lower, lower_byte}
use crosschain_enhanced_by_a.Asset.{Driver}
use crosschain_enhanced_by_a.Errors.{
  ClientError, contains_any, underpriced, no_gas, no_funds, bitcoin_check_error, evm_check_error,
  solana_check_error, cosmos_check_error, aptos_check_error, check_error,
}

lower_byte-lower_byte : (c : ℕ) → lower_byte (lower_byte c) ≡ lower_byte c
unfolding lower_byte
lower_byte-lower_byte c = ground arith

to_lower-to_lower : (s : Text) → to_lower (to_lower s) ≡ to_lower s
unfolding to_lower
to_lower-to_lower [] = refl
to_lower-to_lower (c ∷ s) = ap₂ ◌∷◌ (lower_byte-lower_byte c) (to_lower-to_lower s)

-- The class of a message does not depend on the case of its letters, for any driver.
pub check_error-lower :
    (d : Driver) (error : Text) → check_error d (to_lower error) ≡ check_error d error
unfolding check_error evm_check_error cosmos_check_error solana_check_error aptos_check_error
    bitcoin_check_error
check_error-lower Driver.evm error = rw (to_lower-to_lower error) refl
check_error-lower Driver.evm_legacy error = rw (to_lower-to_lower error) refl
check_error-lower Driver.cosmos error = rw (to_lower-to_lower error) refl
check_error-lower Driver.cosmos_evmos error = rw (to_lower-to_lower error) refl
check_error-lower Driver.solana error = rw (to_lower-to_lower error) refl
check_error-lower Driver.aptos error = rw (to_lower-to_lower error) refl
check_error-lower Driver.bitcoin error = rw (to_lower-to_lower error) refl
check_error-lower Driver.sui error = refl
check_error-lower Driver.none error = refl

-- The evm and the solana classifier agree on every message but one with "transaction
-- underpriced". Such a message is a failure on solana; on evm it is never one: it is a lack of
-- balance if the message says so too, and a network error, to be retried, otherwise.
pub evm_check_error-solana :
    (error : Text)
    → ((contains (to_lower error) underpriced ≡ false)
        × (evm_check_error error ≡ solana_check_error error))
      ⊎ ((contains (to_lower error) underpriced ≡ true)
          × (solana_check_error error ≡ ClientError.transaction_failure)
          × (evm_check_error error ≡ (
              if contains (to_lower error) no_gas
              then ClientError.no_balance_for_gas
              else if contains (to_lower error) no_funds
              then ClientError.no_balance
              else ClientError.network_error)))
unfolding evm_check_error solana_check_error contains_any
evm_check_error-solana error = elim (Bool-cases (contains (to_lower error) underpriced)) [
  | inl e ↦ inr (e, rw e refl, rw e refl)
  | inr e ↦ inl (e, rw e refl)
]

-- The drivers of cosmos, solana and aptos classify every message alike.
pub check_error-cosmos_solana_aptos :
    (error : Text)
    → (check_error Driver.cosmos error ≡ check_error Driver.solana error)
      × (check_error Driver.solana error ≡ check_error Driver.aptos error)
unfolding check_error solana_check_error cosmos_check_error aptos_check_error
check_error-cosmos_solana_aptos error = (refl, refl)
