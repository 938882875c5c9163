-- ===== src/Bitcoin/Utxo/Balance.antt =====
-- `allocateMinUtxoSet` spends each output at most once, counts exactly what it spends, and covers
-- the target when the wallet can.
use mathlib.Core.List.Permᴰ.{Permᴰ}
use crosschain_enhanced_by_a.Prelude.{
  ℕ, zero, suc, ◌+◌, ◌≤◌, true, List, [], ◌∷◌, ◌++◌, map, ◌≡◌, refl, sym, ap, ◌∙◌, ap₂, subst, ◌⊎◌,
  inl, inr, arith, length, length-append, length-map, ltb→lt, ◌<◌, take, ltb, Bool-cases,
  append_assoc, append-nil,
}
use crosschain_enhanced_by_a.Prelude.Int.{
  ℤ, ◌+ℤ◌, ◌≤ℤ◌, ltb_ℤ, int_laws, +ℤ_assoc, +ℤ_zero, zero_+ℤ,
}
use crosschain_enhanced_by_a.Bitcoin.{Output, Input, spend}
use crosschain_enhanced_by_a.Bitcoin.Utxo.{Taken, take_largest, add_smallest}
use crosschain_enhanced_by_a.Bitcoin.Utxo.Order.{total}

pub total-append : (xs ys : List Output) → total (xs ++ ys) ≡ total xs +ℤ total ys
total-append [] ys = sym (zero_+ℤ (total ys))
total-append (o ∷ xs) ys =
    ap (λ (z : ℤ). o.value +ℤ z) (total-append xs ys) ∙ sym (+ℤ_assoc o.value (total xs) (total ys))

pub total-perm : {xs ys : List Output} → Permᴰ xs ys → total xs ≡ total ys
total-perm Permᴰ.nil = refl
total-perm (Permᴰ.cons e p) = ap₂ (λ (o : Output) (z : ℤ). o.value +ℤ z) e (total-perm p)
total-perm (Permᴰ.swap {a} {b} {a'} {b'} {l} e f) = rw (e, f) (omega int_laws)
total-perm (Permᴰ.trans p q) = total-perm p ∙ total-perm q

-- What the first loop did: it spent `used`, in order, and stopped at `rest`.
pub record Spends (os : List Output) (b : ℤ) (ins : List Input) (target : ℤ) (t : Taken)
    : Type 0 where
  pub used : List Output
  pub splits : os ≡ used ++ t.rest
  pub balance_is : t.balance ≡ b +ℤ total used
  pub inputs_are : t.inputs ≡ ins ++ map spend used
  pub stops : (t.rest ≡ []) ⊎ (target ≤ℤ t.balance)
  -- No shorter prefix reaches the target.
  pub needed : (j : ℕ) → j < length used → ¬ (target ≤ℤ b +ℤ total (take j os))

needed_cons :
    (target : ℤ) (o : Output) (os : List Output) (b : ℤ) (used : List Output)
    → ltb_ℤ b target ≡ true
    → ((j : ℕ) → j < length used → ¬ (target ≤ℤ b +ℤ o.value +ℤ total (take j os)))
    → (j : ℕ) → j < suc (length used)
    → ¬ (target ≤ℤ b +ℤ total (take j (o ∷ os)))
needed_cons target o os b used more below zero h e = omega (int_laws, ltb→lt _ _ more, e)
needed_cons target o os b used more below (suc j) h e =
    below j (omega arith)
      (subst (λ (z : ℤ). target ≤ℤ z) (sym (+ℤ_assoc b o.value (total (take j os)))) e)

pub take_largest-Spends :
    (target : ℤ) (os : List Output) (b : ℤ) (ins : List Input)
    → Spends os b ins target (take_largest target os b ins)
unfolding take_largest
take_largest-Spends target [] b ins = record {
  used = [];
  splits = refl;
  balance_is = sym (+ℤ_zero b);
  inputs_are = sym (append-nil ins);
  stops = inl refl;
  needed = λ j h. absurd (omega arith);
}
take_largest-Spends target (o ∷ os) b ins = elim (Bool-cases (ltb_ℤ b target)) [
  | inl more ↦
      let next = take_largest-Spends target os (b +ℤ o.value) (ins ++ spend o ∷ []) in
      rw more (record {
        used = o ∷ next.used;
        splits = ap (◌∷◌ o) next.splits;
        balance_is = next.balance_is ∙ +ℤ_assoc b o.value (total next.used);
        inputs_are = next.inputs_are ∙ append_assoc ins (spend o ∷ []) (map spend next.used);
        stops = next.stops;
        needed = needed_cons target o os b next.used more next.needed;
      })
  | inr enough ↦ rw enough (record {
    used = [];
    splits = refl;
    balance_is = sym (+ℤ_zero b);
    inputs_are = sym (append-nil ins);
    stops = inr (ground arith);
    needed = λ j h. absurd (omega arith);
  })
]

-- What the second loop did: it added `added` and left `left`.
pub record Adds (n : ℕ) (os : List Output) (b : ℤ) (ins : List Input) (r : ℤ × List Input)
    : Type 0 where
  pub added : List Output
  pub left : List Output
  pub splits : os ≡ added ++ left
  pub balance_is : r.0 ≡ b +ℤ total added
  pub inputs_are : r.1 ≡ ins ++ map spend added
  pub stops : (left ≡ []) ⊎ (n ≤ length r.1)
  pub no_more : (added ≡ []) ⊎ (length r.1 ≤ n)

length_spent :
    (ins : List Input) (os : List Output) → length (ins ++ map spend os) ≡ length ins + length os
length_spent ins os =
    length-append ins (map spend os) ∙ ap (λ (k : ℕ). length ins + k) (length-map spend os)

at_most :
    (n : ℕ) (ins : List Input) (o : Output) (added : List Output) {r : List Input}
    → r ≡ (ins ++ spend o ∷ []) ++ map spend added
    → (added ≡ []) ⊎ (length r ≤ n)
    → length ins < n
    → length r ≤ n
at_most n ins o added e (inl none_added) h = omega (
  arith,
  ap length e,
  length_spent (ins ++ spend o ∷ []) added,
  length_spent ins (o ∷ []),
  ap length none_added,
)
at_most n ins o added e (inr h) _ = h

pub add_smallest-Adds :
    (n : ℕ) (os : List Output) (b : ℤ) (ins : List Input)
    → Adds n os b ins (add_smallest n os b ins)
unfolding add_smallest
add_smallest-Adds n [] b ins = record {
  added = [];
  left = [];
  splits = refl;
  balance_is = sym (+ℤ_zero b);
  inputs_are = sym (append-nil ins);
  stops = inl refl;
  no_more = inl refl;
}
add_smallest-Adds n (o ∷ os) b ins = elim (Bool-cases (ltb (length ins) n)) [
  | inl more ↦
      let next = add_smallest-Adds n os (b +ℤ o.value) (ins ++ spend o ∷ []) in
      rw more (record {
        added = o ∷ next.added;
        left = next.left;
        splits = ap (◌∷◌ o) next.splits;
        balance_is = next.balance_is ∙ +ℤ_assoc b o.value (total next.added);
        inputs_are = next.inputs_are ∙ append_assoc ins (spend o ∷ []) (map spend next.added);
        stops = next.stops;
        no_more = inr (at_most n ins o next.added next.inputs_are next.no_more (ltb→lt _ _ more));
      })
  | inr enough ↦ rw enough (record {
    added = [];
    left = o ∷ os;
    splits = refl;
    balance_is = sym (+ℤ_zero b);
    inputs_are = sym (append-nil ins);
    stops = inr (ground arith);
    no_more = inl refl;
  })
]
