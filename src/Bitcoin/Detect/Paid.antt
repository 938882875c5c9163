-- ===== src/Bitcoin/Detect/Paid.antt =====
-- chain/bitcoin/tx.go: what `DetectToAndAmount` adds up, and the receiver that it finds.
use crosschain_enhanced_by_a.Prelude.{
  Bool, true, false, List, [], ◌∷◌, ◌≡◌, refl, sym, ap, ◌∙◌, inl, inr, if◌then◌else◌, Bool-cases,
}
use crosschain_enhanced_by_a.Prelude.Int.{ℤ, pos, ◌+ℤ◌, +ℤ_assoc, +ℤ_zero, zero_+ℤ}
use crosschain_enhanced_by_a.Prelude.Text.{Text, eq_text, is_empty}
use crosschain_enhanced_by_a.Bitcoin.{Recipient}
use crosschain_enhanced_by_a.Bitcoin.Detect.{
  Receiver, detect_to_round, detect_to_loop, detect_to_and_amount,
}

-- The sum of the values of the recipients that a test keeps.
abbrev pub paid_where : (Recipient → Bool) → List Recipient → ℤ
paid_where keep [] = pos 0
paid_where keep (r ∷ rs) = if keep r then r.value +ℤ paid_where keep rs else paid_where keep rs

loop_total :
    (from expected : Text) (rs : List Recipient) (v : Receiver)
    → (detect_to_loop from expected v rs).total_out ≡ v.total_out +ℤ paid_where (λ r. true) rs
unfolding detect_to_loop detect_to_round
loop_total from expected [] v = sym (+ℤ_zero v.total_out)
loop_total from expected (r ∷ rs) v = loop_total from expected rs _ ∙ +ℤ_assoc v.total_out r.value _

round_known :
    (from expected : Text) (v : Receiver) (r : Recipient)
    → is_empty expected ≡ false
    → ((detect_to_round from expected v r).to ≡ v.to)
      × ((detect_to_round from expected v r).amount
          ≡ (if eq_text r.to expected then v.amount +ℤ r.value else v.amount))
unfolding detect_to_round
round_known from expected v r e = rw e (refl, refl)

loop_known :
    (from expected : Text) (rs : List Recipient) (v : Receiver)
    → is_empty expected ≡ false
    → ((detect_to_loop from expected v rs).to ≡ v.to)
      × ((detect_to_loop from expected v rs).amount
          ≡ v.amount +ℤ paid_where (λ r. eq_text r.to expected) rs)
unfolding detect_to_loop
loop_known from expected [] v e = (refl, sym (+ℤ_zero v.amount))
loop_known from expected (r ∷ rs) v e =
    let rest = loop_known from expected rs (detect_to_round from expected v r) e in
    let here = round_known from expected v r e in
    (
      rest.0 ∙ here.0,
      elim (Bool-cases (eq_text r.to expected)) [
        | inl t ↦ rest.1 ∙ rw (here.1, t) (+ℤ_assoc v.amount r.value _)
        | inr f ↦ rest.1 ∙ rw (here.1, f) refl
      ],
    )

-- The last recipient other than `from`, with its value, or what was there before.
abbrev pub last_other : Text → Text × ℤ → List Recipient → Text × ℤ
last_other from w [] = w
last_other from w (r ∷ rs) = last_other from (if eq_text r.to from then w else (r.to, r.value)) rs

-- What the loop has found so far.
abbrev pub found : Receiver → Text × ℤ
found v = (v.to, v.amount)

round_other :
    (from : Text) (v : Receiver) (r : Recipient)
    → found (detect_to_round from [] v r) ≡ (if eq_text r.to from then found v else (r.to, r.value))
unfolding detect_to_round
round_other from v r = elim (Bool-cases (eq_text r.to from)) [
  | inl t ↦ rw t refl
  | inr f ↦ rw f refl
]

loop_other :
    (from : Text) (rs : List Recipient) (v : Receiver)
    → found (detect_to_loop from [] v rs) ≡ last_other from (found v) rs
unfolding detect_to_loop
loop_other from [] v = refl
loop_other from (r ∷ rs) v =
    loop_other from rs (detect_to_round from [] v r)
    ∙ ap (λ w. last_other from w rs) (round_other from v r)

-- With an expected receiver, that receiver is returned, with the sum of what is paid to it and the
-- sum of what is paid to anyone.
pub detect_to_and_amount-known :
    (rs : List Recipient) (from expected : Text)
    → is_empty expected ≡ false
    → let v = detect_to_and_amount rs from expected in
      (v.to ≡ expected)
      × (v.amount ≡ paid_where (λ r. eq_text r.to expected) rs)
      × (v.total_out ≡ paid_where (λ r. true) rs)
unfolding detect_to_and_amount
detect_to_and_amount-known rs from expected e =
    let sum = loop_known from expected rs _ e in
    (sum.0, sum.1 ∙ zero_+ℤ _, loop_total from expected rs _ ∙ zero_+ℤ _)

-- With no expected receiver, the receiver and the amount are those of the last recipient other
-- than the sender, empty and zero if there is none.
pub detect_to_and_amount-unknown :
    (rs : List Recipient) (from : Text)
    → found (detect_to_and_amount rs from []) ≡ last_other from ([], pos 0) rs
unfolding detect_to_and_amount
detect_to_and_amount-unknown rs from = loop_other from rs _
