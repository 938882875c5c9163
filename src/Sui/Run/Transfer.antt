-- ===== src/Sui/Run/Transfer.antt =====
-- chain/sui/builder.go: a transfer of native coins, with other coins than the gas coin or without.
use crosschain_enhanced_by_a.Prelude.{
  ℕ, ◌+◌, ◌-◌, ◌^◌, ◌≤◌, ◌<◌, true, false, List, [], ◌∷◌, none, some, ok, ◌>>=◌, ok_injective, ◌≡◌,
  refl, sym, ap, ap₂, ◌∙◌, arith, length, ltb,
}
use crosschain_enhanced_by_a.Prelude.Int.{ℤ}
use crosschain_enhanced_by_a.Bitcoin.Signing.{set_elem}
use crosschain_enhanced_by_a.Bitcoin.Tx.{uint64}
use crosschain_enhanced_by_a.Sui.{Coin, TxInput, is_native_transfer}
use crosschain_enhanced_by_a.Sui.Util.{little_endian_bytes}
use crosschain_enhanced_by_a.Sui.Builder.{
  Program, pure, gas_coin, input, result, split_coins, transfer_objects, u64_to_pure, gas_budget,
  split_gas, pay, merge_all, program_of,
}
use crosschain_enhanced_by_a.Sui.Budget.{
  balances, AllNative, gas_budget-affords, gas_budget-leaves, native_of_all,
}
use crosschain_enhanced_by_a.Sui.Run.{Chain, bytes, load, run, run_command}
use crosschain_enhanced_by_a.Sui.Run.Merge.{le_value-little_endian_bytes}
use crosschain_enhanced_by_a.Sui.Run.Native.{
  PaysOut, start_of, uint64_bound, runs_as, merged-PaysOut,
}

-- The program of a transfer from the gas coin alone.
abbrev alone : ℕ → List ℕ → Program
alone amount to = record {
  inputs = u64_to_pure amount ∷ pure to ∷ [];
  commands = split_coins gas_coin (input 0 ∷ []) ∷ transfer_objects (result 0 ∷ []) (input 1) ∷ [];
}

split_gas-alone :
    (local : TxInput) (budget : ℕ)
    → is_native_transfer local ≡ true
    → length local.coins ≡ 0
    → split_gas local budget ≡ (record { inputs = []; commands = [] }, none)
unfolding split_gas
split_gas-alone local budget native no_coins = rw (split_gas, native, no_coins) refl

program_of-alone :
    (decode : List ℕ → List ℕ) (local : TxInput) (budget amount : ℕ) (to : List ℕ)
    → local.coins ≡ []
    → is_native_transfer local ≡ true
    → program_of decode local budget amount to ≡ ok (alone amount to)
unfolding program_of merge_all pay
program_of-alone decode local budget amount to are native =
    ap₂ (λ l s. merge_all decode l s >>= λ merged. ok (pay merged.0 merged.1 amount to)) are
      (split_gas-alone local budget native (ap length are))

-- The chain after a transfer from the gas coin.
abbrev alone_end : ℕ → ℕ → List ℕ → Chain
alone_end left amount to = record {
  gas = left;
  slots = bytes (little_endian_bytes 8 amount) ∷ bytes to ∷ [];
  results = none ∷ none ∷ [];
  sent = (amount, to) ∷ [];
}

alone-pays :
    (gas amount : ℕ) (to : List ℕ)
    → amount < 2 ^ 64
    → amount ≤ gas
    → run (alone amount to).commands (start_of gas [] (alone amount to))
      ≡ some (alone_end (gas - amount) amount to)
unfolding run run_command load set_elem
alone-pays gas amount to small enough =
    let value = le_value-little_endian_bytes 8 amount small in
    let fits : ltb gas amount ≡ false = ground (arith, enough) in
    rw (run, run_command, value, fits) refl

alone-PaysOut :
    (decode : List ℕ → List ℕ) (local : TxInput) (amount : ℤ) (to : List ℕ) {budget : ℕ}
    {program : Program}
    → local.coins ≡ []
    → AllNative local
    → balances local.coins + local.gas_coin.balance < 2 ^ 64
    → gas_budget local amount ≡ ok budget
    → program_of decode local budget (uint64 amount) to ≡ ok program
    → PaysOut local budget (uint64 amount) to program
alone-PaysOut decode local amount to {budget} {program} are native fits budgeted built =
    let within = (gas_budget-leaves local amount budgeted).1 in
    let affords = gas_budget-affords local amount native fits budgeted in
    let nothing : balances local.coins ≡ 0 = ap balances are in
    let is = ok_injective (
      sym (
        program_of-alone decode local budget (uint64 amount) to are
          (native_of_all local local.coins refl native))
      ∙ built) in
    let goes =
      alone-pays local.gas_coin.balance (uint64 amount) to (uint64_bound amount)
        (omega (arith, affords, nothing)) in
    let end = alone_end (local.gas_coin.balance - uint64 amount) (uint64 amount) to in
    (end, runs_as is refl (sym are) goes, omega (arith, within, affords, nothing), refl)

by_coins :
    (decode : List ℕ → List ℕ) (local : TxInput) (amount : ℤ) (to : List ℕ) (coins : List Coin)
    {budget : ℕ} {program : Program}
    → local.coins ≡ coins
    → length coins ≤ 52
    → AllNative local
    → balances local.coins + local.gas_coin.balance < 2 ^ 64
    → gas_budget local amount ≡ ok budget
    → program_of decode local budget (uint64 amount) to ≡ ok program
    → PaysOut local budget (uint64 amount) to program
by_coins decode local amount to [] are few = alone-PaysOut decode local amount to are
by_coins decode local amount to (c ∷ cs) are few =
    merged-PaysOut decode local amount to c cs are (omega (arith, few))

-- A program that is built for native coins, of which there are at most 52 besides the gas coin and which
-- together fit 64 bits, can be run: the recipient is sent the amount and nothing else is sent, and the gas
-- coin is left with the budget or more.
pub program_of-PaysOut :
    (decode : List ℕ → List ℕ) (local : TxInput) (amount : ℤ) (to : List ℕ) {budget : ℕ}
    {program : Program}
    → length local.coins ≤ 52
    → AllNative local
    → balances local.coins + local.gas_coin.balance < 2 ^ 64
    → gas_budget local amount ≡ ok budget
    → program_of decode local budget (uint64 amount) to ≡ ok program
    → PaysOut local budget (uint64 amount) to program
program_of-PaysOut decode local amount to = by_coins decode local amount to local.coins refl
