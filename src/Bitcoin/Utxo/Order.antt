-- ===== src/Bitcoin/Utxo/Order.antt =====
-- Sums of values, and lists of outputs from the largest value to the smallest.
use mathlib.Core.List.{reverse, reverse-cons}
use crosschain_enhanced_by_a.Prelude.{
  ℕ, zero, suc, ◌≤◌, List, [], ◌∷◌, ◌++◌, arith, length, take, All, All-append,
}
use crosschain_enhanced_by_a.Prelude.Int.{ℤ, pos, ◌+ℤ◌, ◌≤ℤ◌, int_laws}
use crosschain_enhanced_by_a.Bitcoin.{Output}
use crosschain_enhanced_by_a.Bitcoin.Utxo.{Ascending}

abbrev pub total : List Output → ℤ
total [] = pos 0
total (o ∷ os) = o.value +ℤ total os

-- Each value is at least those behind it.
abbrev pub Descending : List Output → Type 0
Descending [] = Unit
Descending (o ∷ os) = All (λ (p : Output). p.value ≤ℤ o.value) os × Descending os

All-reverse : (P : Output → Type 0) (os : List Output) → All P os → All P (reverse os)
All-reverse P [] h = h
All-reverse P (o ∷ os) h =
    rw reverse-cons (All-append P (reverse os) (o ∷ []) (All-reverse P os h.1) (h.0, tt))

Descending-concat :
    (os : List Output) (o : Output)
    → Descending os
    → All (λ (p : Output). o.value ≤ℤ p.value) os
    → Descending (os ++ o ∷ [])
Descending-concat [] o d h = (tt, tt)
Descending-concat (p ∷ os) o d h = (
  All-append (λ (q : Output). q.value ≤ℤ p.value) os (o ∷ []) d.0 (h.0, tt),
  Descending-concat os o d.1 h.1,
)

pub reverse-Descending : (os : List Output) → Ascending os → Descending (reverse os)
reverse-Descending [] h = tt
reverse-Descending (o ∷ os) h = rw reverse-cons (
    Descending-concat (reverse os) o (reverse-Descending os h.1)
      (All-reverse (λ (p : Output). o.value ≤ℤ p.value) os h.0))

-- One more large output in front does not lower the sum of the first `n`.
pub total_take_mono :
    (n : ℕ) (o : Output) (os : List Output)
    → Descending (o ∷ os)
    → n ≤ length os
    → total (take n os) ≤ℤ total (take n (o ∷ os))
total_take_mono zero o os d h = omega int_laws
total_take_mono (suc n) o [] d h = absurd (omega arith)
total_take_mono (suc n) o (p ∷ os) d h =
    omega (int_laws, total_take_mono n p os d.1 (omega arith), d.0.0)
