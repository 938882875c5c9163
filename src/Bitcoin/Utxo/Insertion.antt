-- ===== src/Bitcoin/Utxo/Insertion.antt =====
-- A sort that keeps the promise of `sort.Slice`: insertion from the right, which is what Go runs on
-- short slices. A test with `<=` puts an equal value in front.
use mathlib.Core.List.Permᴰ
use mathlib.Core.List.Permᴰ.{Permᴰ}
use crosschain_enhanced_by_a.Prelude.{
  List, [], ◌∷◌, refl, arith, inl, inr, All, if◌then◌else◌, Bool-cases,
}
use crosschain_enhanced_by_a.Prelude.Int.{◌≤ℤ◌, leb_ℤ}
use crosschain_enhanced_by_a.Bitcoin.{Output}
use crosschain_enhanced_by_a.Bitcoin.Utxo.{Ascending, SliceSort}

unfoldable pub insert : Output → List Output → List Output
insert o [] = o ∷ []
insert o (p ∷ os) = let next = p ∷ insert o os in if leb_ℤ o.value p.value then o ∷ p ∷ os else next

unfoldable pub insertion_sort : List Output → List Output
unfolding insert
insertion_sort [] = []
insertion_sort (o ∷ os) = insert o (insertion_sort os)

insert-perm : (o : Output) (os : List Output) → Permᴰ (insert o os) (o ∷ os)
unfolding insert
insert-perm o [] = Permᴰ.refl (o ∷ [])
insert-perm o (p ∷ os) = elim (Bool-cases (leb_ℤ o.value p.value)) [
  | inl h ↦ rw h (Permᴰ.refl (o ∷ p ∷ os))
  | inr h ↦ rw h (Permᴰ.trans (Permᴰ.cons refl (insert-perm o os)) (Permᴰ.swap refl refl))
]

pub insertion_sort-perm : (os : List Output) → Permᴰ (insertion_sort os) os
unfolding insertion_sort
insertion_sort-perm [] = Permᴰ.nil
insertion_sort-perm (o ∷ os) =
    Permᴰ.trans (insert-perm o (insertion_sort os)) (Permᴰ.cons refl (insertion_sort-perm os))

above_trans :
    (o p : Output) (os : List Output)
    → o.value ≤ℤ p.value
    → All (λ (q : Output). p.value ≤ℤ q.value) os
    → All (λ (q : Output). o.value ≤ℤ q.value) os
above_trans o p [] h k = tt
above_trans o p (q ∷ os) h k = (omega (arith, h, k.0), above_trans o p os h k.1)

All-insert :
    (p o : Output) (os : List Output)
    → p.value ≤ℤ o.value
    → All (λ (q : Output). p.value ≤ℤ q.value) os
    → All (λ (q : Output). p.value ≤ℤ q.value) (insert o os)
unfolding insert
All-insert p o [] h k = (h, tt)
All-insert p o (q ∷ os) h k = elim (Bool-cases (leb_ℤ o.value q.value)) [
  | inl t ↦ rw t (h, k)
  | inr t ↦ rw t (k.0, All-insert p o os h k.1)
]

insert-Ascending : (o : Output) (os : List Output) → Ascending os → Ascending (insert o os)
unfolding insert
insert-Ascending o [] h = (tt, tt)
insert-Ascending o (p ∷ os) h = elim (Bool-cases (leb_ℤ o.value p.value)) [
  | inl t ↦
      let below : o.value ≤ℤ p.value = ground arith in
      rw t ((below, above_trans o p os below h.0), h)
  | inr t ↦ rw t (All-insert p o os (ground arith) h.0, insert-Ascending o os h.1)
]

pub insertion_sort-Ascending : (os : List Output) → Ascending (insertion_sort os)
unfolding insertion_sort
insertion_sort-Ascending [] = tt
insertion_sort-Ascending (o ∷ os) =
    insert-Ascending o (insertion_sort os) (insertion_sort-Ascending os)

abbrev pub insertion : SliceSort
insertion = record {
  sort = insertion_sort;
  sort-perm = insertion_sort-perm;
  sort-Ascending = insertion_sort-Ascending;
}
