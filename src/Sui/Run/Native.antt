-- ===== src/Sui/Run/Native.antt =====
-- chain/sui/builder.go: the program of a transfer of native coins, and what its commands do.
use crosschain_enhanced_by_a.Prelude.{
  ℕ, zero, suc, ◌+◌, ◌-◌, ◌%◌, ◌^◌, ◌≤◌, ◌<◌, true, false, List, [], ◌∷◌, ◌++◌, map, Option, some,
  ok, ◌>>=◌, >>=-eq-ok, ok_injective, ◌≡◌, refl, sym, ap, ap₂, ◌∙◌, subst, arith, length,
  length-map, length-take, if◌then◌else◌, ◌==◌, take,
}
use crosschain_enhanced_by_a.Prelude.Int.{ℤ, pos, negsuc}
use crosschain_enhanced_by_a.Bitcoin.Tx.{uint64}
use crosschain_enhanced_by_a.Sui.{Coin, TxInput, is_native_transfer}
use crosschain_enhanced_by_a.Sui.Util.{ObjectRef, coin_to_object}
use crosschain_enhanced_by_a.Sui.Builder.{
  CallArg, Argument, Program, pure, object, gas_coin, input, result, split_coins, merge_coins,
  transfer_objects, u64_to_pure, gas_budget, split_gas, pay, merge_rest, merge_all, program_of,
}
use crosschain_enhanced_by_a.Sui.Budget.{
  balances, AllNative, gas_budget-bounds, gas_budget-affords, native_of_all,
}
use crosschain_enhanced_by_a.Sui.Shape.{inputs_from, objects_of, objects_cons, merge_rest-Merged}
use crosschain_enhanced_by_a.Sui.Run.{Chain, load, run}
use crosschain_enhanced_by_a.Sui.Run.Merge.{load-objects, length-objects_of}
use crosschain_enhanced_by_a.Sui.Run.Pays.{at_end, run-transfer_commands}

-- The program that splits the gas coin, and its remainder.
abbrev split_program : ℕ → Program × Option Argument
split_program rest = (
  record { inputs = u64_to_pure rest ∷ []; commands = split_coins gas_coin (input 0 ∷ []) ∷ [] },
  some (result 0),
)

suc-nonzero : (n : ℕ) → (suc n == 0) ≡ false
suc-nonzero n = ground arith

split_gas-native :
    (local : TxInput) (budget n : ℕ)
    → is_native_transfer local ≡ true
    → length local.coins ≡ suc n
    → budget ≤ local.gas_coin.balance
    → local.gas_coin.balance < 2 ^ 64
    → split_gas local budget ≡ split_program (local.gas_coin.balance - budget)
unfolding split_gas
split_gas-native local budget n native some_coins within fits =
    let left : (local.gas_coin.balance + 2 ^ 64 - budget) % 2 ^ 64
        ≡ local.gas_coin.balance - budget =
      omega (arith, within, fits) in
    rw (split_gas, native, some_coins, suc-nonzero n, left) refl

module _ (decode : List ℕ → List ℕ) (rest amount : ℕ) (to : List ℕ) where
  -- The inputs of the objects, and the program around them.
  abbrev object_inputs : List ObjectRef → List CallArg
  object_inputs = map (λ (o : ObjectRef). object o)

  abbrev closed : ObjectRef → List ObjectRef → Program
  closed obj objs = record {
    inputs =
        u64_to_pure rest ∷ object obj ∷ (object_inputs objs ++ (u64_to_pure amount ∷ pure to ∷ []));
    commands =
        split_coins gas_coin (input 0 ∷ [])
        ∷ merge_coins (input 1) (result 0 ∷ inputs_from 2 (length objs))
        ∷ split_coins (input 1) (input (2 + length objs) ∷ [])
        ∷ transfer_objects (result 2 ∷ []) (input (2 + length objs + 1))
        ∷ [];
  }

  -- The program from what the loop of the merge gives.
  abbrev joined : List CallArg → List Argument → Program
  joined inputs args =
      pay
        (record {
          inputs = inputs;
          commands =
              if length args == 0
              then split_coins gas_coin (input 0 ∷ []) ∷ []
              else split_coins gas_coin (input 0 ∷ []) ∷ [] ++ merge_coins (input 1) args ∷ [];
        })
        (input 1) amount to

  joined-closed :
      (obj : ObjectRef) (objs : List ObjectRef)
      → length objs ≤ 51
      → joined
          (u64_to_pure rest ∷ object obj ∷ object_inputs objs)
          (result 0 ∷ inputs_from 2 (length objs))
        ≡ closed obj objs
  unfolding pay
  joined-closed obj objs few =
      let counted : suc (suc (length (object_inputs objs))) ≡ 2 + length objs =
        omega (arith, length-map (λ (o : ObjectRef). object o) objs) in
      let at : (2 + length objs) % 2 ^ 16 ≡ 2 + length objs = omega (arith, few) in
      let next : (2 + length objs + 1) % 2 ^ 16 ≡ 2 + length objs + 1 = omega (arith, few) in
      rw (pay, suc-nonzero (length (inputs_from 2 (length objs))), counted, at, next) refl

  merge_all-closed :
      (c : Coin) (cs : List Coin) {program : Program}
      → (merge_all decode (c ∷ cs) (split_program rest) >>= λ merged.
          ok (pay merged.0 merged.1 amount to))
        ≡ ok program
      → (obj : ObjectRef) × (objs : List ObjectRef) × (objects_of decode (c ∷ take 51 cs)
          ≡ ok (obj ∷ objs))
        × (closed obj objs ≡ program)
  unfolding merge_all
  merge_all-closed c cs e =
      let (merged, done, paid) = >>=-eq-ok (merge_all decode (c ∷ cs) (split_program rest)) _ e in
      let (obj, one, k) = >>=-eq-ok (coin_to_object decode c) _ done in
      let (found, looped, made) =
        >>=-eq-ok (merge_rest decode 0 (u64_to_pure rest ∷ object obj ∷ []) (result 0 ∷ []) cs) _
          k in
      let (objs, listed, inputs_are, args_are) =
        merge_rest-Merged decode cs 51 0 (u64_to_pure rest ∷ object obj ∷ []) (result 0 ∷ [])
          (omega arith) (omega arith) looped in
      let few : length objs ≤ 51 =
        omega (arith, length-objects_of decode (take 51 cs) listed, length-take 51 cs) in
      (
        obj,
        objs,
        objects_cons decode c (take 51 cs) obj objs one listed,
        sym (joined-closed obj objs few)
            ∙ sym (ap₂ (λ is as'. joined is as') inputs_are args_are)
            ∙ ap (λ (m : Program × Argument). pay m.0 m.1 amount to) (ok_injective made)
            ∙ ok_injective paid,
      )

take_all : (n : ℕ) (cs : List Coin) → length cs ≤ n → take n cs ≡ cs
take_all zero [] h = refl
take_all (suc n) [] h = refl
take_all zero (c ∷ cs) h = ground (arith, h)
take_all (suc n) (c ∷ cs) h = ap (λ l. c ∷ l) (take_all n cs (omega (arith, h)))

pub uint64_bound : (z : ℤ) → uint64 z < 2 ^ 64
unfolding uint64
uint64_bound (pos n) = omega arith
uint64_bound (negsuc n) = omega arith

-- The balances of the coins, in order.
abbrev pub balance_list : List Coin → List ℕ
balance_list = map (λ (c : Coin). c.balance)

-- The chain before a program.
abbrev pub start_of : ℕ → List Coin → Program → Chain
start_of gas coins program = record {
  gas = gas;
  slots = load program.inputs (balance_list coins);
  results = [];
  sent = [];
}

-- A run of equal programs from equal chains.
pub runs_as :
    {p q : Program} {gas gas' : ℕ} {coins coins' : List Coin} {end : Chain}
    → p ≡ q
    → gas ≡ gas'
    → coins ≡ coins'
    → run p.commands (start_of gas coins p) ≡ some end
    → run q.commands (start_of gas' coins' q) ≡ some end
runs_as {p} {q} {gas} {gas'} {coins} {coins'} {end} same_program same_gas same_coins runs =
    subst (λ x. run x.commands (start_of gas' coins' x) ≡ some end) same_program
      (subst (λ g. run p.commands (start_of g coins' p) ≡ some end) same_gas
        (subst (λ l. run p.commands (start_of gas l p) ≡ some end) same_coins runs))

closed-pays :
    (decode : List ℕ → List ℕ) (budget rest amount : ℕ) (to : List ℕ) (c : Coin) (cs : List Coin)
    (obj : ObjectRef) (objs : List ObjectRef)
    → objects_of decode (c ∷ cs) ≡ ok (obj ∷ objs)
    → rest < 2 ^ 64
    → amount < 2 ^ 64
    → amount ≤ balances cs + c.balance + rest
    → run
        (closed decode rest amount to obj objs).commands
        (start_of (budget + rest) (c ∷ cs) (closed decode rest amount to obj objs))
      ≡ some (at_end cs c.balance budget rest amount to)
unfolding load
closed-pays decode budget rest amount to c cs obj objs listed small small' enough =
    let same : length objs ≡ length cs = omega (arith, length-objects_of decode (c ∷ cs) listed) in
    let loaded = load-objects decode (c ∷ cs) (u64_to_pure amount ∷ pure to ∷ []) listed in
    rw (same, loaded) (run-transfer_commands cs c.balance budget rest amount to small small' enough)

-- What a transfer does, run from the gas coin's balance and those of the coins: the recipient is sent the
-- amount and nothing else is sent, and the gas coin is left with the budget or more.
abbrev pub PaysOut : TxInput → ℕ → ℕ → List ℕ → Program → Type 0
PaysOut local budget amount to program =
    (final : Chain) × (run program.commands (start_of local.gas_coin.balance local.coins program)
      ≡ some final)
    × (budget ≤ final.gas)
    × (final.sent ≡ (amount, to) ∷ [])

pub merged-PaysOut :
    (decode : List ℕ → List ℕ) (local : TxInput) (amount : ℤ) (to : List ℕ) (c : Coin)
    (cs : List Coin) {budget : ℕ} {program : Program}
    → local.coins ≡ c ∷ cs
    → length cs ≤ 51
    → AllNative local
    → balances local.coins + local.gas_coin.balance < 2 ^ 64
    → gas_budget local amount ≡ ok budget
    → program_of decode local budget (uint64 amount) to ≡ ok program
    → PaysOut local budget (uint64 amount) to program
unfolding program_of
merged-PaysOut decode local amount to c cs {budget} {program} are few native fits budgeted built =
    let (_, within, _) = gas_budget-bounds local amount budgeted in
    let affords = gas_budget-affords local amount native fits budgeted in
    let rest = local.gas_coin.balance - budget in
    let split =
      split_gas-native local budget (length cs) (native_of_all local local.coins refl native)
        (ap length are) within (omega (arith, fits)) in
    let shaped : (merge_all decode (c ∷ cs) (split_program rest) >>= λ merged.
    ok (pay merged.0 merged.1 (uint64 amount) to))
        ≡ ok program =
      sym (
        ap₂
          (λ l s. merge_all decode l s >>= λ merged. ok (pay merged.0 merged.1 (uint64 amount) to))
          are split)
      ∙ built in
    let (obj, objs, listed, is) = merge_all-closed decode rest (uint64 amount) to c cs shaped in
    let all : objects_of decode (c ∷ cs) ≡ ok (obj ∷ objs) =
      subst (λ l. objects_of decode (c ∷ l) ≡ ok (obj ∷ objs)) (take_all 51 cs few) listed in
    let worth : balances local.coins ≡ c.balance + balances cs = ap balances are in
    let goes =
      closed-pays decode budget rest (uint64 amount) to c cs obj objs all (omega (arith, fits))
        (uint64_bound amount) (omega (arith, affords, worth)) in
    let gas : budget + rest ≡ local.gas_coin.balance = omega (arith, within) in
    let runs = runs_as is gas (sym are) goes in
    (at_end cs c.balance budget rest (uint64 amount) to, runs, omega arith, refl)
