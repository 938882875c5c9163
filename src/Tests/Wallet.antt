-- ===== src/Tests/Wallet.antt =====
-- Tests of the allocation of a wallet's outputs.
use mathlib.Core.List.Permᴰ.{Permᴰ}
use crosschain_enhanced_by_a.Prelude.{
  ◌≤◌, List, [], ◌∷◌, ◌++◌, map, ◌≡◌, refl, ◌⊎◌, arith, length, All,
}
use crosschain_enhanced_by_a.Prelude.Int.{ℤ, pos, ◌≤ℤ◌, ◌+ℤ◌}
use crosschain_enhanced_by_a.Bitcoin.{Output, Input, TxInput}
use crosschain_enhanced_by_a.Bitcoin.Utxo.{allocate_min_utxo_set}
use crosschain_enhanced_by_a.Bitcoin.Utxo.Order.{total}
use crosschain_enhanced_by_a.Bitcoin.Utxo.Insertion.{insertion}
use crosschain_enhanced_by_a.Bitcoin.Utxo.Allocation.{allocate-spends_once, allocate-covers}
use crosschain_enhanced_by_a.Bitcoin.Utxo.Minimal.{allocate-minimal}
use crosschain_enhanced_by_a.Tests.Sample.{wallet, output}

-- What a target of 60000 takes, with at least two inputs.
abbrev taken : TxInput × ℤ
taken = allocate_min_utxo_set insertion wallet (pos 60000) 2

abbrev taken_outputs : List Output
taken_outputs = map (λ (i : Input). i.output) taken.0.inputs

nonneg : All (λ (o : Output). pos 0 ≤ℤ o.value) wallet.unspent_outputs
nonneg = (omega arith, (omega arith, (omega arith, tt)))

enough : pos 60000 ≤ℤ total wallet.unspent_outputs
unfolding ◌+ℤ◌
enough = omega arith

allocate-spends_once_example :
    (left : List Output) × Permᴰ (taken_outputs ++ left) wallet.unspent_outputs
    × (taken.1 ≡ total taken_outputs)
allocate-spends_once_example = allocate-spends_once insertion wallet (pos 60000) 2

allocate-covers_example : pos 60000 ≤ℤ taken.1
allocate-covers_example = allocate-covers insertion wallet (pos 60000) 2 nonneg enough

-- The one output of 70000 reaches the target.
swapped : Permᴰ ((output 70000 ∷ []) ++ (output 5000 ∷ output 1200 ∷ [])) wallet.unspent_outputs
swapped = Permᴰ.swap refl refl

one_enough : pos 60000 ≤ℤ total (output 70000 ∷ [])
unfolding ◌+ℤ◌
one_enough = omega arith

allocate-minimal_example : (length taken.0.inputs ≤ 1) ⊎ (length taken.0.inputs ≤ 2)
allocate-minimal_example =
    allocate-minimal insertion wallet (pos 60000) 2 (output 70000 ∷ [])
      (output 5000 ∷ output 1200 ∷ []) swapped one_enough
