-- ===== src/Bitcoin/Utxo.antt =====
-- chain/bitcoin/tx_input.go: `allocateMinUtxoSet`. `sort.Slice` is an argument of the model, with
-- what its documentation promises: the order it gives to equal values is not fixed. The descending
-- index of the first loop is the reversed list; what the loop has not reached is its rest.
pub mod Order
pub mod Insertion
pub mod Balance
pub mod Allocation
pub mod Minimal
use mathlib.Core.List.{reverse}
use mathlib.Core.List.Permᴰ.{Permᴰ}
use crosschain_enhanced_by_a.Prelude.{ℕ, List, [], ◌∷◌, ◌++◌, if◌then◌else◌, ltb, length, take, All}
use crosschain_enhanced_by_a.Prelude.Int.{ℤ, pos, ◌+ℤ◌, ◌≤ℤ◌, ltb_ℤ}
use crosschain_enhanced_by_a.Bitcoin.{Output, Input, TxInput, spend}

-- Each value is at most those behind it.
abbrev pub Ascending : List Output → Type 0
Ascending [] = Unit
Ascending (o ∷ os) = All (λ (p : Output). o.value ≤ℤ p.value) os × Ascending os

-- `sort.Slice` with the comparison of values.
pub record SliceSort : Type 0 where
  pub sort : List Output → List Output
  pub sort-perm : (os : List Output) → Permᴰ (sort os) os
  pub sort-Ascending : (os : List Output) → Ascending (sort os)

-- The first loop: from the largest output down, until the balance reaches the target.
pub record Taken : Type 0 where
  pub rest : List Output
  pub balance : ℤ
  pub inputs : List Input

unfoldable pub take_largest : ℤ → List Output → ℤ → List Input → Taken
take_largest target [] balance inputs = record { rest = []; balance = balance; inputs = inputs }
take_largest target (o ∷ os) balance inputs =
    let next = take_largest target os (balance +ℤ o.value) (inputs ++ spend o ∷ []) in
    if ltb_ℤ balance target
    then next
    else record { rest = o ∷ os; balance = balance; inputs = inputs }

-- The second loop: from the smallest output up, until there are `min_utxo` inputs.
unfoldable pub add_smallest : ℕ → List Output → ℤ → List Input → ℤ × List Input
add_smallest min_utxo [] balance inputs = (balance, inputs)
add_smallest min_utxo (o ∷ os) balance inputs =
    let next = add_smallest min_utxo os (balance +ℤ o.value) (inputs ++ spend o ∷ []) in
    if ltb (length inputs) min_utxo then next else (balance, inputs)

module _ (s : SliceSort) where
  -- `if len(txInput.UnspentOutputs) > 1 { sort.Slice(…) }`
  unfoldable pub sorted_outputs : List Output → List Output
  sorted_outputs os = if ltb 1 (length os) then s.sort os else os

  -- `allocateMinUtxoSet`: the updated input, and the balance that it returns.
  unfoldable pub allocate_min_utxo_set : TxInput → ℤ → ℕ → TxInput × ℤ
  unfolding sorted_outputs
  allocate_min_utxo_set tx_input target min_utxo =
      let os = sorted_outputs tx_input.unspent_outputs in
      let t = take_largest target (reverse os) (pos 0) [] in
      let (balance, inputs) = add_smallest min_utxo (take (length t.rest) os) t.balance t.inputs in
      (record tx_input { unspent_outputs = os; inputs = inputs }, balance)
