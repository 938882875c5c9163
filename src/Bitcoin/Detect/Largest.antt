-- ===== src/Bitcoin/Detect/Largest.antt =====
-- chain/bitcoin/tx.go: the sender that `DetectFrom` finds, and the sum that it returns with it.
use mathlib.Core.List.Memᴰ.{Memᴰ}
use crosschain_enhanced_by_a.Prelude.{
  List, [], ◌∷◌, map, ◌≡◌, refl, sym, ◌∙◌, subst, ◌⊎◌, inl, inr, arith, All,
}
use crosschain_enhanced_by_a.Prelude.Int.{ℤ, pos, ◌+ℤ◌, ◌≤ℤ◌, +ℤ_assoc, +ℤ_zero, zero_+ℤ}
use crosschain_enhanced_by_a.Prelude.Text.{Text}
use crosschain_enhanced_by_a.Bitcoin.{Input}
use crosschain_enhanced_by_a.Bitcoin.Utxo.Order.{total}
use crosschain_enhanced_by_a.Bitcoin.Detect.{
  Sender, detect_from_round, detect_from_loop, detect_from,
}

abbrev pub spent : List Input → ℤ
spent is = total (map (λ (i : Input). i.output) is)

loop_total :
    (is : List Input) (v : Sender) → (detect_from_loop v is).total_in ≡ v.total_in +ℤ spent is
unfolding detect_from_loop detect_from_round
loop_total [] v = sym (+ℤ_zero v.total_in)
loop_total (i ∷ is) v = loop_total is _ ∙ +ℤ_assoc v.total_in i.output.value (spent is)

-- Each input is worth at most `bound`.
abbrev pub AtMost : ℤ → List Input → Type 0
AtMost bound is = All (λ (j : Input). j.output.value ≤ℤ bound) is

-- An input of `is` has the address `from` and the value `max`.
abbrev IsOwner : Text → ℤ → List Input → Type 0
IsOwner from max is = (i : Input) × Memᴰ i is × (from ≡ i.address) × (max ≡ i.output.value)

IsOwner-there :
    {from : Text} {max : ℤ} {is : List Input} (j : Input)
    → IsOwner from max is
    → IsOwner from max (j ∷ is)
IsOwner-there j o = (o.0, Memᴰ.tail o.1, o.2, o.3)

round_max :
    (v : Sender) (i : Input)
    → (v.max ≤ℤ (detect_from_round v i).max) × (i.output.value ≤ℤ (detect_from_round v i).max)
unfolding detect_from_round
round_max v i = ground arith

loop_max :
    (is : List Input) (v : Sender)
    → (v.max ≤ℤ (detect_from_loop v is).max) × AtMost (detect_from_loop v is).max is
unfolding detect_from_loop
loop_max [] v = (omega arith, tt)
loop_max (i ∷ is) v =
    let rest = loop_max is (detect_from_round v i) in
    let here = round_max v i in (omega (arith, here, rest.0), (omega (arith, here, rest.0), rest.1))

round_owner :
    (v : Sender) (i : Input)
    → (((detect_from_round v i).from ≡ v.from) × ((detect_from_round v i).max ≡ v.max))
      ⊎ (((detect_from_round v i).from ≡ i.address)
          × ((detect_from_round v i).max ≡ i.output.value))
unfolding detect_from_round
round_owner v i = ground arith

loop-IsOwner :
    (is : List Input) (v : Sender)
    → (((detect_from_loop v is).from ≡ v.from) × ((detect_from_loop v is).max ≡ v.max))
      ⊎ IsOwner (detect_from_loop v is).from (detect_from_loop v is).max is
unfolding detect_from_loop
loop-IsOwner [] v = inl (refl, refl)
loop-IsOwner (i ∷ is) v = elim (loop-IsOwner is (detect_from_round v i)) [
  | inr o ↦ inr (IsOwner-there i o)
  | inl k ↦ elim (round_owner v i) [
    | inl l ↦ inl (k.0 ∙ l.0, k.1 ∙ l.1)
    | inr l ↦ inr (i, Memᴰ.head refl, k.0 ∙ l.0, k.1 ∙ l.1)
  ]
]

-- The second result is the sum of the values of all inputs.
pub detect_from-total : (is : List Input) → (detect_from is).1 ≡ spent is
unfolding detect_from
detect_from-total is = loop_total is _ ∙ zero_+ℤ (spent is)

-- Either no input is worth more than zero and the sender is empty, or the sender is the address of
-- one of the inputs, and no input is worth more than that one.
pub detect_from-largest :
    (is : List Input)
    → (((detect_from is).0 ≡ []) × AtMost (pos 0) is)
      ⊎ ((i : Input) × Memᴰ i is × ((detect_from is).0 ≡ i.address) × AtMost i.output.value is)
unfolding detect_from
detect_from-largest is =
    let start : Sender = record { from = []; max = pos 0; total_in = pos 0 } in
    let bound = (loop_max is start).1 in
    elim (loop-IsOwner is start) [
      | inl k ↦ inl (k.0, subst (λ m. AtMost m is) k.1 bound)
      | inr o ↦ inr (o.0, o.1, o.2, subst (λ m. AtMost m is) o.3 bound)
    ]
