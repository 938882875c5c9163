-- ===== src/Bitcoin/Utxo/Minimal.antt =====
-- chain/bitcoin/tx_input.go: `allocateMinUtxoSet` takes as few outputs as any choice that reaches
-- the target, up to the number that it consolidates.
use mathlib.Core.List.{Sublistᴰ}
use mathlib.Core.List.Permᴰ
use mathlib.Core.List.Permᴰ.{Permᴰ}
use native.Mathlib.Decide.{dec_lt}
use crosschain_enhanced_by_a.Prelude.{
  ℕ, suc, ◌≤◌, List, [], ◌∷◌, ◌++◌, ◌≡◌, refl, ap, ◌∙◌, subst, ◌⊎◌, inl, inr, arith, length,
  length-map, length-append, take,
}
use crosschain_enhanced_by_a.Prelude.Int.{ℤ, ◌≤ℤ◌, int_laws}
use crosschain_enhanced_by_a.Bitcoin.{Output, TxInput, spend}
use crosschain_enhanced_by_a.Bitcoin.Utxo.{SliceSort, allocate_min_utxo_set}
use crosschain_enhanced_by_a.Bitcoin.Utxo.Order.{total, Descending, total_take_mono}
use crosschain_enhanced_by_a.Bitcoin.Utxo.Balance.{total-perm}
use crosschain_enhanced_by_a.Bitcoin.Utxo.Allocation.{allocate-Allocation}

Sublist-length : {xs ys : List Output} → Sublistᴰ xs ys → length xs ≤ length ys
Sublist-length Sublistᴰ.slnil = omega arith
Sublist-length (Sublistᴰ.cons s) = omega (arith, Sublist-length s)
Sublist-length (Sublistᴰ.cons-cons e s) = omega (arith, Sublist-length s)

-- No choice of `k` outputs is worth more than the `k` largest.
total_sublist :
    {xs ys : List Output} → Sublistᴰ xs ys → Descending ys → total xs ≤ℤ total (take (length xs) ys)
total_sublist Sublistᴰ.slnil d = omega arith
total_sublist (Sublistᴰ.cons {a} {l₁} {l₂} s) d =
    omega (int_laws, total_sublist s d.1, total_take_mono (length l₁) a l₂ d (Sublist-length s))
total_sublist (Sublistᴰ.cons-cons {a} {b} {l₁} {l₂} e s) d =
    rw e (omega (int_laws, total_sublist s d.1))

Permᴰ-length : {xs ys : List Output} → Permᴰ xs ys → length xs ≡ length ys
Permᴰ-length Permᴰ.nil = refl
Permᴰ-length (Permᴰ.cons e p) = ap suc (Permᴰ-length p)
Permᴰ-length (Permᴰ.swap e f) = refl
Permᴰ-length (Permᴰ.trans p q) = Permᴰ-length p ∙ Permᴰ-length q

append_left : (xs ys : List Output) → Sublistᴰ xs (xs ++ ys)
append_left [] [] = Sublistᴰ.slnil
append_left [] (y ∷ ys) = Sublistᴰ.cons (append_left [] ys)
append_left (x ∷ xs) ys = Sublistᴰ.cons-cons refl (append_left xs ys)

total_choice :
    (choice others order : List Output)
    → Permᴰ (choice ++ others) order
    → Descending order
    → total choice ≤ℤ total (take (length choice) order)
total_choice choice others order p d =
    let (same, q, s) = Permᴰ.exists_sublist p (append_left choice others) in
    subst (λ (z : ℤ). z ≤ℤ total (take (length choice) order)) (total-perm q)
      (subst (λ (k : ℕ). total same ≤ℤ total (take k order)) (Permᴰ-length q) (total_sublist s d))

module _ (s : SliceSort) where
  -- Take any choice of the wallet's outputs that reaches the target. The number of inputs is at most
  -- the length of that choice, or at most the number up to which small outputs are added.
  pub allocate-minimal :
      (tx_input : TxInput) (target : ℤ) (n : ℕ) (choice others : List Output)
      → Permᴰ (choice ++ others) tx_input.unspent_outputs
      → target ≤ℤ total choice
      → (length (allocate_min_utxo_set s tx_input target n).0.inputs ≤ length choice)
        ⊎ (length (allocate_min_utxo_set s tx_input target n).0.inputs ≤ n)
  allocate-minimal tx_input target n choice others p reaches =
      let a = allocate-Allocation s tx_input target n in
      let most =
        total_choice choice others a.order (Permᴰ.trans p (Permᴰ.symm a.order-perm))
          a.order-Descending in
      elim a.no_more [
        | inl e ↦ elim (dec_lt (length choice) (length a.used)) [
          | yes h ↦ absurd (a.needed (length choice) h (omega (int_laws, reaches, most)))
          | no h ↦ inl (
              omega (
                arith,
                ap length a.inputs_are,
                length-map spend (a.used ++ a.added),
                length-append a.used a.added,
                ap length e,
                h,
              ))
        ]
        | inr h ↦ inr h
      ]

  -- There are `n` inputs or more, unless the whole wallet is spent.
  pub allocate-fills :
      (tx_input : TxInput) (target : ℤ) (n : ℕ)
      → (n ≤ length (allocate_min_utxo_set s tx_input target n).0.inputs)
        ⊎ (length (allocate_min_utxo_set s tx_input target n).0.inputs
            ≡ length tx_input.unspent_outputs)
  allocate-fills tx_input target n =
      let a = allocate-Allocation s tx_input target n in
      elim a.fills [
        | inl e ↦ inr (
            omega (
              arith,
              ap length a.inputs_are,
              length-map spend (a.used ++ a.added),
              length-append a.used a.added,
              Permᴰ-length a.splits,
              length-append a.used (a.added ++ a.left),
              length-append a.added a.left,
              ap length e,
            ))
        | inr h ↦ inl h
      ]
