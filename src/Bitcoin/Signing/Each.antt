-- ===== src/Bitcoin/Signing/Each.antt =====
-- chain/bitcoin/tx.go: the loop of `AddSignatures`, which writes by index, as a walk along three lists.
use crosschain_enhanced_by_a.Prelude.{
  ℕ, suc, ◌+◌, ◌≤◌, if◌then◌else◌, take, drop, inl, inr, Option-cases, Bool, true, false, List, [],
  ◌∷◌, ◌++◌, Option, none, some, ◌≡◌, refl, sym, ap, ◌∙◌, subst, arith, append_assoc, get_elem?,
  length, length-append, All,
}
use crosschain_enhanced_by_a.Prelude.Bytes.{big_endian}
use crosschain_enhanced_by_a.Bitcoin.{Input}
use crosschain_enhanced_by_a.Bitcoin.Failure.{Failure}
use crosschain_enhanced_by_a.Bitcoin.Tx.{TxIn, Tx}
use crosschain_enhanced_by_a.Bitcoin.Signing.{
  Scripts, with_hash_type, sig_hash_all, sighash_fork_id, sign_legacy, sign_input, set_elem,
  sign_at, is_signature, put_tx_in, add_signatures_loop, add_signatures,
}
use crosschain_enhanced_by_a.Bitcoin.Signing.Refusal.{loop_go}

-- Each input of the transaction signed with the input and the signature at its place.
abbrev pub sign_each : Scripts → Bool → List ℕ → List TxIn → List Input → List (List ℕ) → List TxIn
sign_each s is_bch key (t ∷ ts) (i ∷ is) (rsv ∷ sigs) =
    (sign_input s is_bch key i rsv t).0 ∷ sign_each s is_bch key ts is sigs
sign_each s is_bch key ts _ _ = ts

-- The transaction with the inputs `ts`, signed, and no error.
abbrev pub finished : Tx → List TxIn → Tx × Option Failure
finished tx ts = (record tx { signed = true; msg_tx = record tx.msg_tx { tx_in = ts } }, none)

pub get_elem?-append {ℓ} :
    {A : Type ℓ} (xs : List A) (y : A) (ys : List A) → get_elem? (xs ++ y ∷ ys) (length xs) ≡ some y
get_elem?-append [] y ys = refl
get_elem?-append (x ∷ xs) y ys = get_elem?-append xs y ys

pub set_elem-append {ℓ} :
    {A : Type ℓ} (xs : List A) (y z : A) (ys : List A)
    → set_elem (xs ++ y ∷ ys) (length xs) z ≡ xs ++ z ∷ ys
unfolding set_elem
set_elem-append [] y z ys = refl
set_elem-append (x ∷ xs) y z ys = ap (◌∷◌ x) (set_elem-append xs y z ys)

-- The script builder accepts up to three items of at most 520 bytes, the greatest size of an element;
-- with their opcodes they are far below the greatest size of a script, 10000 bytes.
abbrev pub Accepts : Scripts → Type 0
Accepts s =
    (items : List (List ℕ))
    → length items ≤ 3
    → All (λ (d : List ℕ). length d ≤ 520) items
    → (s.script items).1 ≡ none

-- A signature in DER has at most 72 bytes.
abbrev pub IsShort : Scripts → Type 0
IsShort s = (a b : ℕ) → length (s.serialize a b) ≤ 72

-- The script of an input, if it has one, is of at most 520 bytes.
abbrev pub Fits : Option (List ℕ) → Type 0
Fits none = Unit
Fits (some c) = length c ≤ 520

length-with_hash_type :
    (s : Scripts) (hash_type : ℕ) (rsv : List ℕ)
    → IsShort s
    → length (with_hash_type s hash_type rsv) ≤ 520
unfolding with_hash_type
length-with_hash_type s hash_type rsv short =
    let r = big_endian 0 (take 32 rsv) in
    let v = big_endian 0 (take 32 (drop 32 rsv)) in
    omega (arith, short r v, length-append (s.serialize r v) (hash_type ∷ []))

sign_legacy-none :
    (s : Scripts) (is_bch : Bool) (key : List ℕ) (input : Input) (rsv : List ℕ) (t : TxIn)
    → Accepts s
    → IsShort s
    → length key ≤ 520
    → Fits input.sig_script
    → (sign_legacy s is_bch key input rsv t).1 ≡ none
unfolding sign_legacy
sign_legacy-none s is_bch key input rsv t h short small fits =
    let hash_type = if is_bch then sig_hash_all + sighash_fork_id else sig_hash_all in
    let signature = length-with_hash_type s hash_type rsv short in
    elim (Option-cases input.sig_script) [
      | inl n ↦ rw (sign_legacy, n) (h _ (omega arith) (signature, (small, tt)))
      | inr (c, n) ↦
          rw (sign_legacy, n) (h _ (omega arith) (signature, (small, (subst Fits n fits, tt))))
    ]

sign_input-none :
    (s : Scripts) (is_bch : Bool) (key : List ℕ) (input : Input) (rsv : List ℕ) (t : TxIn)
    → Accepts s
    → IsShort s
    → length key ≤ 520
    → Fits input.sig_script
    → (sign_input s is_bch key input rsv t).1 ≡ none
unfolding sign_input
sign_input-none s is_bch key input rsv t h short small fits =
    ground (arith, sign_legacy-none s is_bch key input rsv t h short small fits)

sign_at-in_range :
    (s : Scripts) (i : ℕ) (rsv : List ℕ) (tx : Tx) (input : Input) (t : TxIn)
    → is_signature rsv ≡ true
    → get_elem? tx.input.inputs i ≡ some input
    → get_elem? tx.msg_tx.tx_in i ≡ some t
    → let step = sign_input s tx.is_bch tx.input.from_public_key input rsv t in
      sign_at s i rsv tx ≡ (put_tx_in tx i step.0, step.1)
unfolding sign_at
sign_at-in_range s i rsv tx input t g hi ht = rw (g, hi, ht) refl

loop_each :
    (s : Scripts) (accepts : Accepts s) (short : IsShort s) (sigs : List (List ℕ))
    (ts done : List TxIn) (is before : List Input) (tx : Tx)
    → tx.msg_tx.tx_in ≡ done ++ ts
    → tx.input.inputs ≡ before ++ is
    → length before ≡ length done
    → length sigs ≡ length ts
    → length ts ≤ length is
    → length tx.input.from_public_key ≤ 520
    → All (λ (i : Input). Fits i.sig_script) is
    → All (λ rsv. is_signature rsv ≡ true) sigs
    → add_signatures_loop s (length done) sigs tx
      ≡ finished tx (done ++ sign_each s tx.is_bch tx.input.from_public_key ts is sigs)
unfolding add_signatures_loop put_tx_in
loop_each s accepts short [] [] done is before tx ht hi hb hs hl small fits good =
    ap (finished tx) ht
loop_each s accepts short (rsv ∷ sigs) (t ∷ ts) done (i ∷ is) before tx ht hi hb hs hl small fits
      good =
    let n = length done in
    let t' = (sign_input s tx.is_bch tx.input.from_public_key i rsv t).0 in
    let at =
      sign_at-in_range s n rsv tx i t good.0
        (ap (λ l. get_elem? l n) hi
          ∙ subst (λ k. get_elem? (before ++ i ∷ is) k ≡ some i) hb (get_elem?-append before i is))
        (ap (λ l. get_elem? l n) ht ∙ get_elem?-append done t ts) in
    let fine =
      sign_input-none s tx.is_bch tx.input.from_public_key i rsv t accepts short small fits.0 in
    let next = put_tx_in tx n t' in
    let next_in : next.msg_tx.tx_in ≡ (done ++ t' ∷ []) ++ ts =
      ap (λ l. set_elem l n t') ht
      ∙ set_elem-append done t t' ts
      ∙ sym (append_assoc done (t' ∷ []) ts) in
    let rest =
      loop_each s accepts short sigs ts (done ++ t' ∷ []) is (before ++ i ∷ []) next next_in
        (hi ∙ sym (append_assoc before (i ∷ []) is))
        (omega (arith, hb, length-append before (i ∷ []), length-append done (t' ∷ [])))
        (omega (arith, hs)) (omega (arith, hl)) small fits.1 good.1 in
    let index : suc n ≡ length (done ++ t' ∷ []) = omega (arith, length-append done (t' ∷ [])) in
    loop_go s n rsv sigs tx (ap (λ r. r.1) at ∙ fine)
    ∙ ap (λ r. add_signatures_loop s (suc n) sigs r.0) at
    ∙ ap (λ k. add_signatures_loop s k sigs next) index
    ∙ rest
    ∙ ap (finished tx) (append_assoc done (t' ∷ []) _)
loop_each s accepts short (rsv ∷ sigs) (t ∷ ts) done [] before tx ht hi hb hs hl small fits good =
    absurd (omega (arith, hl))
loop_each s accepts short [] (t ∷ ts) done is before tx ht hi hb hs hl small fits good =
    absurd (omega (arith, hs))
loop_each s accepts short (rsv ∷ sigs) [] done is before tx ht hi hb hs hl small fits good =
    absurd (omega (arith, hs))

add_signatures-run :
    (s : Scripts) (tx : Tx) (sigs : List (List ℕ))
    → tx.signed ≡ false
    → length sigs ≡ length tx.msg_tx.tx_in
    → add_signatures s tx sigs ≡ add_signatures_loop s 0 sigs tx
unfolding add_signatures
add_signatures-run s tx sigs u hs = ground arith

pub add_signatures-each :
    (s : Scripts) (tx : Tx) (sigs : List (List ℕ))
    → Accepts s
    → IsShort s
    → tx.signed ≡ false
    → length sigs ≡ length tx.msg_tx.tx_in
    → length tx.msg_tx.tx_in ≤ length tx.input.inputs
    → length tx.input.from_public_key ≤ 520
    → All (λ (i : Input). Fits i.sig_script) tx.input.inputs
    → All (λ rsv. is_signature rsv ≡ true) sigs
    → add_signatures s tx sigs
      ≡ finished tx
          (sign_each s tx.is_bch tx.input.from_public_key tx.msg_tx.tx_in tx.input.inputs sigs)
unfolding add_signatures
add_signatures-each s tx sigs accepts short u hs hl small fits good =
    add_signatures-run s tx sigs u hs
    ∙ loop_each s accepts short sigs tx.msg_tx.tx_in [] tx.input.inputs [] tx refl refl refl hs hl
        small fits good
