-- ===== src/Bitcoin/Utxo/Allocation.antt =====
-- chain/bitcoin/tx_input.go: what `allocateMinUtxoSet` spends, and what it leaves.
use mathlib.Core.List.{reverse, reverse-append, reverse-reverse, reverse-cons, map-append}
use mathlib.Core.List.Permᴰ
use mathlib.Core.List.Permᴰ.{Permᴰ}
use crosschain_enhanced_by_a.Prelude.{
  ℕ, suc, ◌≤◌, ◌<◌, List, [], ◌∷◌, ◌++◌, map, ◌≡◌, refl, sym, ap, ◌∙◌, subst, ◌⊎◌, inl, inr, arith,
  length, length-append, take, take-append_length, All, ltb, lt→ltb, Bool-cases, append_assoc,
}
use crosschain_enhanced_by_a.Prelude.Int.{ℤ, pos, ◌+ℤ◌, ◌≤ℤ◌, int_laws, zero_+ℤ}
use crosschain_enhanced_by_a.Bitcoin.{Output, Input, TxInput, spend}
use crosschain_enhanced_by_a.Bitcoin.Utxo.{
  SliceSort, Ascending, take_largest, sorted_outputs, allocate_min_utxo_set,
}
use crosschain_enhanced_by_a.Bitcoin.Utxo.Order.{total, Descending, reverse-Descending}
use crosschain_enhanced_by_a.Bitcoin.Utxo.Balance.{
  total-append, total-perm, take_largest-Spends, add_smallest-Adds,
}

pub map-output-spend : (os : List Output) → map (λ (i : Input). i.output) (map spend os) ≡ os
map-output-spend [] = refl
map-output-spend (o ∷ os) = ap (◌∷◌ o) (map-output-spend os)

length-reverse : (os : List Output) → length (reverse os) ≡ length os
length-reverse [] = refl
length-reverse (o ∷ os) =
    rw reverse-cons (omega (arith, length-append (reverse os) (o ∷ []), length-reverse os))

-- The outputs that the first loop did not reach, by their indices in the sorted slice.
take_rest :
    (os used rest : List Output) → reverse os ≡ used ++ rest → take (length rest) os ≡ reverse rest
take_rest os used rest e =
    let back : os ≡ reverse rest ++ reverse used =
      sym (reverse-reverse os) ∙ ap reverse e ∙ reverse-append used rest in
    rw (back, ← length-reverse rest) (take-append_length (reverse rest) (reverse used))

All-perm : (P : Output → Type 0) {xs ys : List Output} → Permᴰ xs ys → All P xs → All P ys
All-perm P Permᴰ.nil h = h
All-perm P (Permᴰ.cons e p) h = (subst P e h.0, All-perm P p h.1)
All-perm P (Permᴰ.swap e f) h = (subst P f h.1.0, (subst P e h.0, h.1.1))
All-perm P (Permᴰ.trans p q) h = All-perm P q (All-perm P p h)

All-append_left : (P : Output → Type 0) (xs ys : List Output) → All P (xs ++ ys) → All P xs
All-append_left P [] ys h = tt
All-append_left P (x ∷ xs) ys h = (h.0, All-append_left P xs ys h.1)

All-append_right : (P : Output → Type 0) (xs ys : List Output) → All P (xs ++ ys) → All P ys
All-append_right P [] ys h = h
All-append_right P (x ∷ xs) ys h = All-append_right P xs ys h.1

total_nonneg : (xs : List Output) → All (λ (o : Output). pos 0 ≤ℤ o.value) xs → pos 0 ≤ℤ total xs
total_nonneg [] h = omega arith
total_nonneg (o ∷ xs) h = omega (int_laws, total_nonneg xs h.1, h.0)

nil_of_append : (xs ys : List Output) → xs ++ ys ≡ [] → (xs ≡ []) × (ys ≡ [])
nil_of_append [] ys e = (refl, e)
nil_of_append (x ∷ xs) ys e = cc

-- The outputs that the two loops spend, and those that they leave.
pub record Allocation (os : List Output) (target : ℤ) (n : ℕ) (r : TxInput × ℤ) : Type 0 where
  pub used : List Output
  pub added : List Output
  pub left : List Output
  pub inputs_are : r.0.inputs ≡ map spend (used ++ added)
  pub balance_is : r.1 ≡ total used +ℤ total added
  pub splits : Permᴰ (used ++ (added ++ left)) os
  pub covers : (added ++ left ≡ []) ⊎ (target ≤ℤ total used)
  pub fills : (left ≡ []) ⊎ (n ≤ length r.0.inputs)
  pub no_more : (added ≡ []) ⊎ (length r.0.inputs ≤ n)
  pub order : List Output
  pub order-Descending : Descending order
  pub order-perm : Permᴰ order os
  pub needed : (j : ℕ) → j < length used → ¬ (target ≤ℤ total (take j order))

module _ (s : SliceSort) where
  pub sorted_outputs-perm : (os : List Output) → Permᴰ (sorted_outputs s os) os
  unfolding sorted_outputs
  sorted_outputs-perm os = elim (Bool-cases (ltb 1 (length os))) [
    | inl h ↦ rw h (s.sort-perm os)
    | inr h ↦ rw h (Permᴰ.refl os)
  ]

  pub sorted_outputs-Ascending : (os : List Output) → Ascending (sorted_outputs s os)
  unfolding sorted_outputs
  sorted_outputs-Ascending [] = tt
  sorted_outputs-Ascending (o ∷ []) = (tt, tt)
  sorted_outputs-Ascending (o ∷ p ∷ os) =
      rw (lt→ltb 1 (suc (suc (length os))) (omega arith)) (s.sort-Ascending (o ∷ p ∷ os))

  pub allocate-Allocation :
      (tx_input : TxInput) (target : ℤ) (n : ℕ)
      → Allocation tx_input.unspent_outputs target n (allocate_min_utxo_set s tx_input target n)
  unfolding allocate_min_utxo_set
  allocate-Allocation tx_input target n =
      let os = sorted_outputs s tx_input.unspent_outputs in
      let t = take_largest target (reverse os) (pos 0) [] in
      let first = take_largest-Spends target (reverse os) (pos 0) [] in
      let second = add_smallest-Adds n (take (length t.rest) os) t.balance t.inputs in
      let rest_is : reverse t.rest ≡ second.added ++ second.left =
        sym (take_rest os first.used t.rest first.splits) ∙ second.splits in
      record {
        used = first.used;
        added = second.added;
        left = second.left;
        inputs_are =
            second.inputs_are
            ∙ ap (λ (l : List Input). l ++ map spend second.added) first.inputs_are
            ∙ sym (map-append spend first.used second.added);
        balance_is =
            second.balance_is
            ∙ ap (λ (z : ℤ). z +ℤ total second.added)
                (first.balance_is ∙ zero_+ℤ (total first.used));
        splits = rw (← rest_is) (
            Permᴰ.trans (Permᴰ.append_left first.used (Permᴰ.reverse t.rest)) (
              rw (← first.splits)
                (Permᴰ.trans (Permᴰ.reverse os) (sorted_outputs-perm tx_input.unspent_outputs))));
        covers = elim first.stops [
          | inl e ↦ inl (sym rest_is ∙ ap reverse e)
          | inr h ↦
              inr (subst (λ (z : ℤ). target ≤ℤ z) (first.balance_is ∙ zero_+ℤ (total first.used)) h)
        ];
        fills = second.stops;
        no_more = second.no_more;
        order = reverse os;
        order-Descending =
            reverse-Descending os (sorted_outputs-Ascending tx_input.unspent_outputs);
        order-perm = Permᴰ.trans (Permᴰ.reverse os) (sorted_outputs-perm tx_input.unspent_outputs);
        needed = λ j h reached.
            first.needed j h (
              subst (λ (z : ℤ). target ≤ℤ z) (sym (zero_+ℤ (total (take j (reverse os))))) reached);
      }

  -- Every input spends an output of the wallet, none twice, and the balance returned is the sum of
  -- the values spent: the spent outputs and some others together are the wallet's.
  pub allocate-spends_once :
      (tx_input : TxInput) (target : ℤ) (n : ℕ)
      → (left : List Output) × Permᴰ
          (map (λ (i : Input). i.output) (allocate_min_utxo_set s tx_input target n).0.inputs
            ++ left)
          tx_input.unspent_outputs
        × ((allocate_min_utxo_set s tx_input target n).1
            ≡ total (
                map (λ (i : Input). i.output) (allocate_min_utxo_set s tx_input target n).0.inputs))
  allocate-spends_once tx_input target n =
      let a = allocate-Allocation tx_input target n in
      let spent =
        ap (map (λ (i : Input). i.output)) a.inputs_are ∙ map-output-spend (a.used ++ a.added) in
      (
        a.left,
        rw (spent, append_assoc a.used a.added a.left) a.splits,
        rw spent (a.balance_is ∙ sym (total-append a.used a.added)),
      )

  -- If no value is negative and the wallet holds the target, the balance reaches the target.
  pub allocate-covers :
      (tx_input : TxInput) (target : ℤ) (n : ℕ)
      → All (λ (o : Output). pos 0 ≤ℤ o.value) tx_input.unspent_outputs
      → target ≤ℤ total tx_input.unspent_outputs
      → target ≤ℤ (allocate_min_utxo_set s tx_input target n).1
  allocate-covers tx_input target n nonneg enough =
      let a = allocate-Allocation tx_input target n in
      let P : Output → Type 0 = λ o. pos 0 ≤ℤ o.value in
      let sum_is = sym (total-perm a.splits) ∙ total-append a.used (a.added ++ a.left) in
      let spent = All-perm P (Permᴰ.symm a.splits) nonneg in
      let added =
        All-append_left P a.added a.left (All-append_right P a.used (a.added ++ a.left) spent) in
      elim a.covers [
        | inl e ↦
            let none_added = (nil_of_append a.added a.left e).0 in
            let same =
              sum_is
              ∙ ap (λ (z : ℤ). total a.used +ℤ z) (ap total e ∙ sym (ap total none_added))
              ∙ sym a.balance_is in
            subst (λ (z : ℤ). target ≤ℤ z) same enough
        | inr h ↦
            subst (λ (z : ℤ). target ≤ℤ z) (sym a.balance_is)
              (omega (int_laws, total_nonneg a.added added, h))
      ]
