-- ===== src/Bitcoin/Signing/Refusal.antt =====
-- chain/bitcoin/tx.go: what `AddSignatures` leaves as it was, and when a transaction counts as signed.
use crosschain_enhanced_by_a.Prelude.{
  ℕ, zero, suc, Bool, true, false, List, [], ◌∷◌, map, Option, none, some, ◌≡◌, refl, ap, ◌∙◌, ◌↔◌,
  ◌⊎◌, inl, inr, sym, subst, false≢true, arith, Option-cases, get_elem?, Bool-cases,
}
use crosschain_enhanced_by_a.Bitcoin.{Input, TxInput, Recipient}
use crosschain_enhanced_by_a.Bitcoin.Failure.{Failure}
use crosschain_enhanced_by_a.Bitcoin.Tx.{TxIn, TxOut, Tx}
use crosschain_enhanced_by_a.Prelude.Int.{ℤ}
use crosschain_enhanced_by_a.Prelude.Text.{Text}
use crosschain_enhanced_by_a.Bitcoin.Signing.{
  Scripts, sign_legacy, sign_input, set_elem, sign_at, is_signature, put_tx_in, continue,
  add_signatures_loop, add_signatures,
}

-- What an input spends.
abbrev spends : TxIn → List ℕ × ℕ
spends t = (t.hash, t.index)

-- The payment of a transaction: all of it but the scripts and witnesses of its inputs and its mark.
pub record Payment : Type 0 where
  pub version : ℕ
  pub spent : List (List ℕ × ℕ)
  pub tx_out : List TxOut
  pub recipients : List Recipient
  pub amount : ℤ
  pub input : TxInput
  pub from : Text
  pub to : Text
  pub is_bch : Bool

unfoldable pub payment : Tx → Payment
payment tx = record {
  version = tx.msg_tx.version;
  spent = map spends tx.msg_tx.tx_in;
  tx_out = tx.msg_tx.tx_out;
  recipients = tx.recipients;
  amount = tx.amount;
  input = tx.input;
  from = tx.from;
  to = tx.to;
  is_bch = tx.is_bch;
}

sign_input-spends :
    (s : Scripts) (is_bch : Bool) (key : List ℕ) (input : Input) (rsv : List ℕ) (t : TxIn)
    → spends (sign_input s is_bch key input rsv t).0 ≡ spends t
unfolding sign_input sign_legacy
sign_input-spends s is_bch key input rsv t = ground arith

set_elem-spends :
    (ts : List TxIn) (i : ℕ) (t t' : TxIn)
    → get_elem? ts i ≡ some t
    → spends t' ≡ spends t
    → map spends (set_elem ts i t') ≡ map spends ts
unfolding set_elem
set_elem-spends [] i t t' g h = refl
set_elem-spends (u ∷ us) zero t t' g h = cc
set_elem-spends (u ∷ us) (suc i) t t' g h = ap (◌∷◌ (spends u)) (set_elem-spends us i t t' g h)

put_tx_in-payment :
    (tx : Tx) (i : ℕ) (t t' : TxIn)
    → get_elem? tx.msg_tx.tx_in i ≡ some t
    → spends t' ≡ spends t
    → payment (put_tx_in tx i t') ≡ payment tx
unfolding put_tx_in payment
put_tx_in-payment tx i t t' g h =
    ap (λ l. record (payment tx) { spent = l }) (set_elem-spends tx.msg_tx.tx_in i t t' g h)

sign_at-keeps :
    (s : Scripts) (i : ℕ) (rsv : List ℕ) (tx : Tx)
    → (payment (sign_at s i rsv tx).0 ≡ payment tx) × ((sign_at s i rsv tx).0.signed ≡ tx.signed)
unfolding sign_at put_tx_in
sign_at-keeps s i rsv tx = elim (Bool-cases (is_signature rsv)) [
  | inr e ↦ rw e (refl, refl)
  | inl e ↦ elim (Option-cases (get_elem? tx.input.inputs i)) [
    | inl n ↦ rw (e, n) (refl, refl)
    | inr h ↦ elim (Option-cases (get_elem? tx.msg_tx.tx_in i)) [
      | inl n ↦ rw (e, h.1, n) (refl, refl)
      | inr t ↦
          rw (e, h.1, t.1)
            (
              put_tx_in-payment tx i t.0 _ t.1
                  (sign_input-spends s tx.is_bch tx.input.from_public_key h.0 rsv t.0),
              refl,
            )
    ]
  ]
]

pub continue-none :
    (r : Tx × Option Failure) (k : Tx → Tx × Option Failure) → r.1 ≡ none → continue r k ≡ k r.0
unfolding continue
continue-none (tx, none) k h = refl
continue-none (tx, some e) k h = cc

continue-some :
    (r : Tx × Option Failure) (k : Tx → Tx × Option Failure) (e : Failure)
    → r.1 ≡ some e
    → continue r k ≡ (r.0, some e)
unfolding continue
continue-some (tx, none) k e h = cc
continue-some (tx, some f) k e h = cc

pub loop_go :
    (s : Scripts) (i : ℕ) (rsv : List ℕ) (rest : List (List ℕ)) (tx : Tx)
    → (sign_at s i rsv tx).1 ≡ none
    → add_signatures_loop s i (rsv ∷ rest) tx
      ≡ add_signatures_loop s (suc i) rest (sign_at s i rsv tx).0
unfolding add_signatures_loop
loop_go s i rsv rest tx h = continue-none _ _ h

loop_stop :
    (s : Scripts) (i : ℕ) (rsv : List ℕ) (rest : List (List ℕ)) (tx : Tx) (e : Failure)
    → (sign_at s i rsv tx).1 ≡ some e
    → add_signatures_loop s i (rsv ∷ rest) tx ≡ ((sign_at s i rsv tx).0, some e)
unfolding add_signatures_loop
loop_stop s i rsv rest tx e h = continue-some _ _ e h

loop_payment :
    (s : Scripts) (i : ℕ) (sigs : List (List ℕ)) (tx : Tx)
    → payment (add_signatures_loop s i sigs tx).0 ≡ payment tx
unfolding add_signatures_loop payment
loop_payment s i [] tx = refl
loop_payment s i (rsv ∷ rest) tx =
    let step = sign_at s i rsv tx in
    let kept = (sign_at-keeps s i rsv tx).0 in
    elim (Option-cases step.1) [
      | inl n ↦
          ap (λ r. payment r.0) (loop_go s i rsv rest tx n)
          ∙ loop_payment s (suc i) rest step.0
          ∙ kept
      | inr h ↦ ap (λ r. payment r.0) (loop_stop s i rsv rest tx h.0 h.1) ∙ kept
    ]

-- A result is signed exactly when it has no error.
abbrev Agrees : Tx × Option Failure → Type 0
Agrees r = (r.0.signed ≡ true) ↔ (r.1 ≡ none)

failed-Agrees : (tx : Tx) (e : Failure) → tx.signed ≡ false → Agrees (tx, some e)
failed-Agrees tx e u = (λ k. absurd (cc), λ k. absurd (cc))

loop_signed :
    (s : Scripts) (i : ℕ) (sigs : List (List ℕ)) (tx : Tx)
    → tx.signed ≡ false
    → Agrees (add_signatures_loop s i sigs tx)
unfolding add_signatures_loop
loop_signed s i [] tx u = (λ h. refl, λ h. refl)
loop_signed s i (rsv ∷ rest) tx u =
    let step = sign_at s i rsv tx in
    let kept = (sign_at-keeps s i rsv tx).1 ∙ u in
    elim (Option-cases step.1) [
      | inl n ↦
          subst Agrees (sym (loop_go s i rsv rest tx n)) (loop_signed s (suc i) rest step.0 kept)
      | inr h ↦
          subst Agrees (sym (loop_stop s i rsv rest tx h.0 h.1)) (failed-Agrees step.0 h.0 kept)
    ]

-- The three ways of a call.
add_signatures-cases :
    (s : Scripts) (tx : Tx) (sigs : List (List ℕ))
    → ((tx.signed ≡ true) × (add_signatures s tx sigs ≡ (tx, some Failure.already_signed)))
      ⊎ (((tx.signed ≡ false) × (add_signatures s tx sigs ≡ (tx, some Failure.signature_count)))
          ⊎ ((tx.signed ≡ false) × (add_signatures s tx sigs ≡ add_signatures_loop s 0 sigs tx)))
unfolding add_signatures
add_signatures-cases s tx sigs = ground arith

-- Whatever `AddSignatures` returns, it has changed neither what the transaction spends and pays nor
-- what it was built from.
pub add_signatures-payment :
    (s : Scripts) (tx : Tx) (sigs : List (List ℕ))
    → payment (add_signatures s tx sigs).0 ≡ payment tx
add_signatures-payment s tx sigs = elim (add_signatures-cases s tx sigs) [
  | inl e ↦ ap (λ r. payment r.0) e.1
  | inr (inl e) ↦ ap (λ r. payment r.0) e.1
  | inr (inr e) ↦ ap (λ r. payment r.0) e.1 ∙ loop_payment s 0 sigs tx
]

-- A transaction that was not signed is signed by `AddSignatures` exactly when no error is returned.
pub add_signatures-signed_iff :
    (s : Scripts) (tx : Tx) (sigs : List (List ℕ))
    → tx.signed ≡ false
    → ((add_signatures s tx sigs).0.signed ≡ true) ↔ ((add_signatures s tx sigs).1 ≡ none)
add_signatures-signed_iff s tx sigs u = elim (add_signatures-cases s tx sigs) [
  | inl e ↦ absurd (false≢true (sym u ∙ e.0))
  | inr (inl e) ↦ subst Agrees (sym e.1) (failed-Agrees tx Failure.signature_count u)
  | inr (inr e) ↦ subst Agrees (sym e.1) (loop_signed s 0 sigs tx u)
]

refused :
    (s : Scripts) (tx : Tx) (sigs : List (List ℕ))
    → tx.signed ≡ true
    → add_signatures s tx sigs ≡ (tx, some Failure.already_signed)
refused s tx sigs h = elim (add_signatures-cases s tx sigs) [
  | inl e ↦ e.1
  | inr (inl e) ↦ absurd (false≢true (sym e.0 ∙ h))
  | inr (inr e) ↦ absurd (false≢true (sym e.0 ∙ h))
]

-- After a call without an error, any further call returns that the transaction is already signed
-- and changes nothing.
pub add_signatures-twice :
    (s : Scripts) (tx : Tx) (sigs more : List (List ℕ))
    → (add_signatures s tx sigs).1 ≡ none
    → add_signatures s (add_signatures s tx sigs).0 more
      ≡ ((add_signatures s tx sigs).0, some Failure.already_signed)
add_signatures-twice s tx sigs more h = elim (Bool-cases tx.signed) [
  | inl e ↦ cc (h, refused s tx sigs e)
  | inr u ↦ refused s _ more ((add_signatures-signed_iff s tx sigs u).1 h)
]
