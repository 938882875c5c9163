-- ===== src/Sui/Budget.antt =====
-- chain/sui/builder.go: the budget for gas, and what is left to send.
use crosschain_enhanced_by_a.Prelude.{
  ◌⊎◌, inl, inr, Bool-cases, ℕ, ◌+◌, ◌-◌, ◌%◌, ◌^◌, ◌≤◌, ◌<◌, Bool, true, false, ◌||◌, List, [],
  ◌∷◌, ok, err, Result, ◌≡◌, refl, ◌∙◌, subst, arith, ltb, All, if◌then◌else◌,
}
use crosschain_enhanced_by_a.Prelude.Int.{ℤ}
use crosschain_enhanced_by_a.Prelude.Text.{Text, eq_text, eq_text_refl, is_empty}
use crosschain_enhanced_by_a.Bitcoin.Tx.{uint64}
use crosschain_enhanced_by_a.Sui.{
  Coin, TxInput, Failure, sum_coins, total_balance, is_native_transfer,
}
use crosschain_enhanced_by_a.Sui.Builder.{min_of, gas_budget}

-- The branches of the budget, with its amounts as numbers.
abbrev budget_of : Bool → ℕ → ℕ → ℕ → ℕ → Result Failure ℕ
budget_of native normal balance total sending =
    if native
    then if ltb total sending
      then err Failure.not_enough_funds
      else ok (min_of (min_of normal balance) (total - sending))
    else ok (min_of (min_of normal balance) balance)

budget_of-bounds :
    (native : Bool) (normal balance total sending : ℕ) {budget : ℕ}
    → budget_of native normal balance total sending ≡ ok budget
    → (budget ≤ normal) × (budget ≤ balance) × (native ≡ true → budget + sending ≤ total)
budget_of-bounds native normal balance total sending e = ground (arith, e)

pub gas_budget-leaves :
    (local : TxInput) (amount : ℤ) {budget : ℕ}
    → gas_budget local amount ≡ ok budget
    → (budget ≤ local.gas_budget)
      × (budget ≤ local.gas_coin.balance)
      × (is_native_transfer local ≡ true → budget + uint64 amount ≤ total_balance local % 2 ^ 64)
unfolding gas_budget
gas_budget-leaves local amount e =
    budget_of-bounds (is_native_transfer local) local.gas_budget local.gas_coin.balance
      (total_balance local % 2 ^ 64) (uint64 amount) e

-- A budget is at most the normal one and at most the balance of the gas coin. Unless the transfer is of
-- another coin, it leaves the amount to send of all there is, on 64 bits.
pub gas_budget-bounds :
    (local : TxInput) (amount : ℤ) {budget : ℕ}
    → gas_budget local amount ≡ ok budget
    → (budget ≤ local.gas_budget)
      × (budget ≤ local.gas_coin.balance)
      × ((is_native_transfer local ≡ false)
          ⊎ (budget + uint64 amount ≤ total_balance local % 2 ^ 64))
gas_budget-bounds local amount {budget} e =
    let (normal, within, leaves) = gas_budget-leaves local amount e in
    (
      normal,
      within,
      elim (Bool-cases (is_native_transfer local)) [
        | inl native ↦ inr (leaves native)
        | inr other ↦ inl other
      ],
    )

abbrev pub balances : List Coin → ℕ
balances [] = 0
balances (c ∷ cs) = c.balance + balances cs

-- Coins of the type of the gas coin.
abbrev pub AllNative : TxInput → Type 0
AllNative input = All (λ (c : Coin). c.coin_type ≡ input.gas_coin.coin_type) input.coins

sum_coins-same :
    (kind : Text) (amount : ℕ) (cs : List Coin)
    → All (λ (c : Coin). c.coin_type ≡ kind) cs
    → (sum_coins kind amount cs).0 ≡ kind
unfolding sum_coins
sum_coins-same kind amount [] h = refl
sum_coins-same kind amount (c ∷ cs) h = rw (h.0) (sum_coins-same kind (amount + c.balance) cs h.1)

sum_coins-balances :
    (kind : Text) (amount : ℕ) (cs : List Coin)
    → (sum_coins kind amount cs).1 ≡ amount + balances cs
unfolding sum_coins
sum_coins-balances kind amount [] = omega arith
sum_coins-balances kind amount (c ∷ cs) =
    sum_coins-balances c.coin_type (amount + c.balance) cs ∙ omega arith

or_true : (a : Bool) → (a || true) ≡ true
or_true true = refl
or_true false = refl

-- The last type seen is the one of the gas coin, or there is none.
counts_gas :
    (kind : Text) (cs : List Coin)
    → All (λ (c : Coin). c.coin_type ≡ kind) cs
    → (is_empty (sum_coins [] 0 cs).0 || eq_text (sum_coins [] 0 cs).0 kind) ≡ true
unfolding sum_coins
counts_gas kind [] h = refl
counts_gas kind (c ∷ cs) h =
    let last : (sum_coins c.coin_type (0 + c.balance) cs).0 ≡ kind =
      rw (h.0) (sum_coins-same kind (0 + c.balance) cs h.1) in
    rw (last, eq_text_refl kind) (or_true (is_empty kind))

-- Native coins are counted with the gas coin.
pub total_balance-native :
    (input : TxInput)
    → AllNative input
    → total_balance input ≡ balances input.coins + input.gas_coin.balance
unfolding total_balance
total_balance-native input h =
    rw
      (
        total_balance,
        counts_gas input.gas_coin.coin_type input.coins h,
        sum_coins-balances [] 0 input.coins,
      )
      omega arith

pub native_of_all :
    (input : TxInput) (cs : List Coin)
    → input.coins ≡ cs
    → AllNative input
    → is_native_transfer input ≡ true
unfolding is_native_transfer eq_text
native_of_all input [] is h = rw (is) refl
native_of_all input (c ∷ cs) is h =
    let first =
      (subst (λ l. All (λ (x : Coin). x.coin_type ≡ input.gas_coin.coin_type) l) is h).0 in
    rw (is_native_transfer, is, first) (eq_text_refl input.gas_coin.coin_type)

-- Where all coins are native and together fit 64 bits, a transfer that has a budget can be paid: the
-- other coins and what the gas coin holds beyond the budget are worth the amount.
pub gas_budget-affords :
    (local : TxInput) (amount : ℤ) {budget : ℕ}
    → AllNative local
    → balances local.coins + local.gas_coin.balance < 2 ^ 64
    → gas_budget local amount ≡ ok budget
    → uint64 amount ≤ balances local.coins + (local.gas_coin.balance - budget)
gas_budget-affords local amount native fits e =
    let (_, within, leaves) = gas_budget-leaves local amount e in
    let total = total_balance-native local native in
    let left = leaves (native_of_all local local.coins refl native) in
    omega (arith, within, left, total, fits)
