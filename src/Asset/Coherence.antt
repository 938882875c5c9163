-- ===== src/Asset/Coherence.antt =====
-- asset.go: the three switches over the names of chains agree with one another.
use crosschain_enhanced_by_a.Prelude.{
  Bool, true, false, ◌&&◌, ◌||◌, List, [], ◌∷◌, ◌++◌, ◌≡◌, ◌≢◌, ◌↔◌, ◌⊎◌, inl, inr, refl, arith,
  Bool-cases,
}
use crosschain_enhanced_by_a.Prelude.Text.{Text, codes, eq_text, eq_text_iff, one_of}
use crosschain_enhanced_by_a.Asset.{
  asset_type, asset_type_native, chain_type, ChainType, driver, Driver, utxo_chains, account_chains,
  evm_chains, evm_legacy_chains, cosmos_chains,
}

all_in : List Text → List Text → Bool
unfolding one_of
all_in [] bs = true
all_in (a ∷ rest) bs = one_of a bs && all_in rest bs

-- A list that evaluation finds inside another one is inside it for every text.
one_of-subset :
    (small large : List Text) (a : Text)
    → all_in small large ≡ true
    → one_of a small ≡ true
    → one_of a large ≡ true
unfolding one_of
one_of-subset [] large a h m = cc
one_of-subset (x ∷ rest) large a h m = elim (Bool-cases (eq_text a x)) [
  | inl e ↦ rw ((eq_text_iff a x).0 e) (unfold all_in in ground arith)
  | inr e ↦ one_of-subset rest large a (unfold all_in in ground arith) (ground arith)
]

one_of-append : (xs bs : List Text) (a : Text) → one_of a (xs ++ bs) ≡ (one_of a xs || one_of a bs)
unfolding one_of
one_of-append [] bs a = refl
one_of-append (x ∷ xs) bs a = ground (arith, one_of-append xs bs a)

abbrev arb_eth : Text
arb_eth = codes "ArbETH"

-- The lists of the account cases of `Driver`, one after the other.
abbrev driver_cases : List Text
driver_cases =
    evm_chains
    ++ (evm_legacy_chains
        ++ ((codes "APTOS" ∷ []) ++ (cosmos_chains ++ ((codes "SUI" ∷ []) ++ (codes "SOL" ∷ [])))))

account-cases : all_in account_chains (driver_cases ++ (arb_eth ∷ [])) ≡ true
unfolding all_in one_of eq_text
account-cases = refl

cases-account : all_in driver_cases account_chains ≡ true
unfolding all_in one_of eq_text
cases-account = refl

-- What `driver` tests after the UTXO chains, as one test.
one_of-driver_cases :
    (a : Text)
    → one_of a driver_cases ≡ (
        one_of a evm_chains
        || (one_of a evm_legacy_chains
            || (one_of a (codes "APTOS" ∷ [])
                || (one_of a cosmos_chains
                    || (one_of a (codes "SUI" ∷ []) || one_of a (codes "SOL" ∷ []))))))
one_of-driver_cases a = simp one_of-append

driver-none_tests :
    (a : Text)
    → (driver a ≡ Driver.none) ↔ ((one_of a utxo_chains || one_of a driver_cases) ≡ false)
driver-none_tests a = rw one_of-driver_cases (unfold driver in ground arith)

one_of-single : (a b : Text) → (one_of a (b ∷ []) ≡ true) ↔ (a ≡ b)
unfolding one_of
one_of-single a b = ground (arith, eq_text_iff a b)

-- An account chain is a case of `Driver`, or it is Arbitrum.
account_split :
    (a : Text) → one_of a account_chains ≡ true → (one_of a driver_cases ≡ true) ⊎ (a ≡ arb_eth)
account_split a h = ground (
  arith,
  one_of-subset account_chains (driver_cases ++ (arb_eth ∷ [])) a account-cases h,
  one_of-append driver_cases (arb_eth ∷ []) a,
  one_of-single a arb_eth,
)

arb_eth_tests :
    (one_of arb_eth utxo_chains ≡ false)
    × (one_of arb_eth driver_cases ≡ false)
    × (one_of arb_eth account_chains ≡ true)
unfolding one_of eq_text
arb_eth_tests = (refl, refl, refl)

-- A name is a native asset exactly when its chain type is known: the two switches of the source
-- list the same names.
pub asset_type-native_iff :
    (a : Text) → (asset_type a ≡ asset_type_native) ↔ (chain_type a ≢ ChainType.unknown)
unfolding asset_type chain_type
asset_type-native_iff a = ground arith

-- The names that no case of `Driver` takes.
driver-none_of :
    (a : Text) → driver a ≡ Driver.none → (chain_type a ≡ ChainType.unknown) ⊎ (a ≡ arb_eth)
driver-none_of a h =
    let tests = (driver-none_tests a).0 h in
    elim (Bool-cases (one_of a account_chains)) [
      | inl in_account ↦ elim (account_split a in_account) [
        | inl c ↦ absurd (ground (arith, tests, c))
        | inr e ↦ inr e
      ]
      | inr out ↦ inl (unfold chain_type in ground (arith, tests, out))
    ]

driver_of_unknown : (a : Text) → chain_type a ≡ ChainType.unknown → driver a ≡ Driver.none
unfolding chain_type
driver_of_unknown a h =
    (driver-none_tests a).1
      (ground (arith, one_of-subset driver_cases account_chains a cases-account))

driver-arb_eth : driver arb_eth ≡ Driver.none
driver-arb_eth = (driver-none_tests arb_eth).1 (ground (arith, arb_eth_tests))

-- `Driver` gives no driver exactly for the names that are of no known chain, and for ArbETH, which
-- is an account chain. The UTXO chains are exactly those of the driver `bitcoin`.
pub driver-chain_type :
    (a : Text)
    → ((driver a ≡ Driver.none) ↔ ((chain_type a ≡ ChainType.unknown) ⊎ (a ≡ codes "ArbETH")))
      × ((driver a ≡ Driver.bitcoin) ↔ (chain_type a ≡ ChainType.utxo))
driver-chain_type a = (
  (driver-none_of a, λ h. elim h [ inl u ↦ driver_of_unknown a u | inr e ↦ rw e driver-arb_eth ]),
  unfold driver chain_type in ground arith,
)
