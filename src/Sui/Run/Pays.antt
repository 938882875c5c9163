-- ===== src/Sui/Run/Pays.antt =====
-- A transfer of native coins, run: the four commands from the split of the gas coin to the payment.
use crosschain_enhanced_by_a.Prelude.{
  ℕ, ◌+◌, ◌-◌, ◌^◌, ◌≤◌, ◌<◌, false, List, [], ◌∷◌, ◌++◌, none, some, ◌≡◌, refl, ◌∙◌, subst, arith,
  append_assoc, length, length-append, length-map, get_elem?, ltb,
}
use crosschain_enhanced_by_a.Bitcoin.Signing.{set_elem}
use crosschain_enhanced_by_a.Bitcoin.Signing.Each.{get_elem?-append}
use crosschain_enhanced_by_a.Sui.{Coin}
use crosschain_enhanced_by_a.Sui.Util.{little_endian_bytes}
use crosschain_enhanced_by_a.Sui.Builder.{
  Command, gas_coin, input, result, split_coins, merge_coins, transfer_objects,
}
use crosschain_enhanced_by_a.Sui.Budget.{balances}
use crosschain_enhanced_by_a.Sui.Shape.{inputs_from}
use crosschain_enhanced_by_a.Sui.Run.{Slot, Chain, coin, bytes, used, collect, run_command, run}
use crosschain_enhanced_by_a.Sui.Run.Merge.{
  le_value-little_endian_bytes, coins_of, all_used, collect-inputs_from,
}

module _ (cs : List Coin) (first budget rest amount : ℕ) (to : List ℕ) where
  -- The inputs behind the coins.
  abbrev payment : List Slot
  payment = bytes (little_endian_bytes 8 amount) ∷ bytes to ∷ []

  abbrev remainder : Slot
  remainder = bytes (little_endian_bytes 8 rest)

  abbrev pub at_start : Chain
  at_start = record {
    gas = budget + rest;
    slots = remainder ∷ coin first ∷ (coins_of cs ++ payment);
    results = [];
    sent = [];
  }

  abbrev after_split : Chain
  after_split = record {
    gas = budget;
    slots = remainder ∷ coin first ∷ (coins_of cs ++ payment);
    results = some rest ∷ [];
    sent = [];
  }

  -- What the merged coin holds.
  abbrev merged : ℕ
  merged = first + (0 + rest + balances cs)

  abbrev after_merge : Chain
  after_merge = record {
    gas = budget;
    slots = remainder ∷ coin merged ∷ (all_used cs ++ payment);
    results = none ∷ none ∷ [];
    sent = [];
  }

  abbrev after_pay : Chain
  after_pay = record {
    gas = budget;
    slots = remainder ∷ coin (merged - amount) ∷ (all_used cs ++ payment);
    results = none ∷ none ∷ some amount ∷ [];
    sent = [];
  }

  -- The chain at the end: the payment is sent, and the gas coin holds the budget.
  abbrev pub at_end : Chain
  at_end = record {
    gas = budget;
    slots = remainder ∷ coin (merged - amount) ∷ (all_used cs ++ payment);
    results = none ∷ none ∷ none ∷ none ∷ [];
    sent = (amount, to) ∷ [];
  }

  runs_split :
      rest < 2 ^ 64 → run_command (split_coins gas_coin (input 0 ∷ [])) at_start ≡ some after_split
  unfolding run_command
  runs_split small =
      let value = le_value-little_endian_bytes 8 rest small in
      let enough : ltb (budget + rest) rest ≡ false = ground arith in
      let left : budget + rest - rest ≡ budget = omega arith in rw (value, enough, left) refl

  runs_merge :
      run_command (merge_coins (input 1) (result 0 ∷ inputs_from 2 (length cs))) after_split
      ≡ some after_merge
  unfolding run_command collect set_elem
  runs_merge =
      let sums =
        collect-inputs_from cs budget (remainder ∷ coin first ∷ []) payment (none ∷ []) [] 2
          (0 + rest) refl in
      rw (run_command, sums) refl

  payment_at :
      (head : List Slot)
      → length head ≡ 2
      → (get_elem? (head ++ (all_used cs ++ payment)) (2 + length cs)
          ≡ some (bytes (little_endian_bytes 8 amount)))
        × (get_elem? (head ++ (all_used cs ++ payment)) (2 + length cs + 1) ≡ some (bytes to))
  payment_at head f =
      let start = head ++ all_used cs in
      let sent_amount = bytes (little_endian_bytes 8 amount) in
      let filled : length start ≡ 2 + length cs =
        omega (arith, f, length-append head (all_used cs), length-map (λ (c : Coin). used) cs) in
      let full : length (start ++ sent_amount ∷ []) ≡ 2 + length cs + 1 =
        omega (arith, filled, length-append start (sent_amount ∷ [])) in
      let split : start ++ payment ≡ head ++ (all_used cs ++ payment) =
        append_assoc head (all_used cs) payment in
      let split' : start ++ sent_amount ∷ [] ++ bytes to ∷ [] ≡ head ++ (all_used cs ++ payment) =
        append_assoc start (sent_amount ∷ []) (bytes to ∷ []) ∙ split in
      (
        subst (λ l. get_elem? l (2 + length cs) ≡ some sent_amount) split
            (subst (λ n. get_elem? (start ++ payment) n ≡ some sent_amount) filled
              (get_elem?-append start sent_amount (bytes to ∷ []))),
        subst (λ l. get_elem? l (2 + length cs + 1) ≡ some (bytes to)) split'
            (subst (λ n. get_elem? (start ++ sent_amount ∷ [] ++ bytes to ∷ []) n ≡ some (bytes to))
              full (get_elem?-append (start ++ sent_amount ∷ []) (bytes to) [])),
      )

  runs_pay :
      amount < 2 ^ 64
      → amount ≤ merged
      → run_command (split_coins (input 1) (input (2 + length cs) ∷ [])) after_merge
        ≡ some after_pay
  unfolding run_command set_elem
  runs_pay small enough =
      let at = (payment_at (remainder ∷ coin merged ∷ []) refl).0 in
      let value = le_value-little_endian_bytes 8 amount small in
      let fits : ltb merged amount ≡ false = ground (arith, enough) in
      rw (run_command, at, value, fits) refl

  runs_transfer :
      run_command (transfer_objects (result 2 ∷ []) (input (2 + length cs + 1))) after_pay
      ≡ some at_end
  unfolding run_command set_elem
  runs_transfer =
      let at = (payment_at (remainder ∷ coin (merged - amount) ∷ []) refl).1 in
      rw (run_command, at) refl

  -- The commands of the transfer.
  abbrev pub transfer_commands : List Command
  transfer_commands =
      split_coins gas_coin (input 0 ∷ [])
      ∷ merge_coins (input 1) (result 0 ∷ inputs_from 2 (length cs))
      ∷ split_coins (input 1) (input (2 + length cs) ∷ [])
      ∷ transfer_objects (result 2 ∷ []) (input (2 + length cs + 1))
      ∷ []

  pub run-transfer_commands :
      rest < 2 ^ 64
      → amount < 2 ^ 64
      → amount ≤ balances cs + first + rest
      → run transfer_commands at_start ≡ some at_end
  unfolding run
  run-transfer_commands small small' enough =
      rw (run, runs_split small, runs_merge, runs_pay small' (omega (arith, enough)), runs_transfer)
        refl
