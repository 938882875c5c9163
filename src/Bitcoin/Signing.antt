-- ===== src/Bitcoin/Signing.antt =====
-- chain/bitcoin/tx.go: `AddSignatures`. The inputs are signed in the order of their indices, in
-- place: a failure leaves the inputs before it signed. Logging is left out.
pub mod Each
pub mod Refusal
use crosschain_enhanced_by_a.Prelude.{
  ℕ, zero, suc, ◌+◌, ◌*◌, Bool, true, false, not, ◌&&◌, ◌||◌, List, [], ◌∷◌, ◌++◌, Option, none,
  some, if◌then◌else◌, length, take, drop, get_elem?, ◌==◌,
}
use crosschain_enhanced_by_a.Prelude.Bytes.{big_endian}
use crosschain_enhanced_by_a.Bitcoin.{Input}
use crosschain_enhanced_by_a.Bitcoin.Failure.{Failure}
use crosschain_enhanced_by_a.Bitcoin.Tx.{TxIn, MsgTx, Tx}

-- What the method calls of txscript and btcec. `script` is what a `ScriptBuilder` returns after
-- `AddData` of each item in order: a script and, with an error, its kind.
pub record Scripts : Type 0 where
  pub is_pay_to_witness_pub_key_hash : List ℕ → Bool
  pub is_pay_to_witness_script_hash : List ℕ → Bool
  pub serialize : ℕ → ℕ → List ℕ
  pub script : List (List ℕ) → List ℕ × Option Failure

abbrev pub sig_hash_all : ℕ
sig_hash_all = 1

-- `SighashForkID`
abbrev pub sighash_fork_id : ℕ
sighash_fork_id = 0x40

-- `signature.Serialize()` with the byte of the hash type behind it.
unfoldable pub with_hash_type : Scripts → ℕ → List ℕ → List ℕ
unfolding big_endian
with_hash_type s hash_type rsv =
    s.serialize (big_endian 0 (take 32 rsv)) (big_endian 0 (take 32 (drop 32 rsv)))
    ++ hash_type ∷ []

-- The branch without segregated witness. The script is stored whether or not there is an error.
unfoldable pub sign_legacy : Scripts → Bool → List ℕ → Input → List ℕ → TxIn → TxIn × Option Failure
unfolding with_hash_type
sign_legacy s is_bch key input rsv txin =
    let hash_type = if is_bch then sig_hash_all + sighash_fork_id else sig_hash_all in
    let items = with_hash_type s hash_type rsv ∷ key ∷ [] in
    let built = s.script (elim input.sig_script [ none ↦ items | some c ↦ items ++ c ∷ [] ]) in
    (record txin { signature_script = some built.0 }, built.1)

-- The body of the loop of `AddSignatures`, for one input of the transaction.
unfoldable pub sign_input : Scripts → Bool → List ℕ → Input → List ℕ → TxIn → TxIn × Option Failure
unfolding with_hash_type sign_legacy
sign_input s is_bch key input rsv txin =
    let legacy = sign_legacy s is_bch key input rsv txin in
    let signature = with_hash_type s sig_hash_all rsv in
    elim input.sig_script [
      | none ↦
          let pub_key_script = input.output.pub_key_script in
          if s.is_pay_to_witness_pub_key_hash pub_key_script
            || s.is_pay_to_witness_script_hash pub_key_script
          then (record txin { witness = signature ∷ key ∷ [] }, none)
          else legacy
      | some c ↦
          if s.is_pay_to_witness_script_hash c
          then (record txin { witness = signature ∷ key ∷ c ∷ [] }, none)
          else legacy
    ]

-- `xs[i] = x`, for an index in range.
unfoldable pub set_elem {ℓ} : {A : Type ℓ} → List A → ℕ → A → List A
set_elem [] i x = []
set_elem (y ∷ ys) zero x = x ∷ ys
set_elem (y ∷ ys) (suc i) x = y ∷ set_elem ys i x

-- The length test of a signature.
abbrev pub is_signature : List ℕ → Bool
is_signature rsv = length rsv == 65 || length rsv == 64

-- `tx.msgTx.TxIn[i] = t`
unfoldable pub put_tx_in : Tx → ℕ → TxIn → Tx
put_tx_in tx i t = record tx { msg_tx = record tx.msg_tx { tx_in = set_elem tx.msg_tx.tx_in i t } }

-- A round of the loop of `AddSignatures`, at the index `i`; an index out of range panics.
unfoldable pub sign_at : Scripts → ℕ → List ℕ → Tx → Tx × Option Failure
unfolding sign_input put_tx_in set_elem
sign_at s i rsv tx =
    if is_signature rsv
    then elim (get_elem? tx.input.inputs i) [
      | none ↦ (tx, some Failure.panic)
      | some input ↦ elim (get_elem? tx.msg_tx.tx_in i) [
        | none ↦ (tx, some Failure.panic)
        | some txin ↦
            let step = sign_input s tx.is_bch tx.input.from_public_key input rsv txin in
            (put_tx_in tx i step.0, step.1)
      ]
    ]
    else (tx, some Failure.signature_length)

-- `if err != nil { return err }` after a step that may have changed the transaction.
unfoldable pub continue : Tx × Option Failure → (Tx → Tx × Option Failure) → Tx × Option Failure
continue (tx, none) k = k tx
continue (tx, some e) k = (tx, some e)

-- The loop of `AddSignatures` from the index `i` on, and what follows it.
unfoldable pub add_signatures_loop : Scripts → ℕ → List (List ℕ) → Tx → Tx × Option Failure
unfolding sign_at continue
add_signatures_loop s i [] tx = (record tx { signed = true }, none)
add_signatures_loop s i (rsv ∷ rest) tx =
    continue (sign_at s i rsv tx) (λ next. add_signatures_loop s (suc i) rest next)

-- `AddSignatures`
unfoldable pub add_signatures : Scripts → Tx → List (List ℕ) → Tx × Option Failure
unfolding add_signatures_loop
add_signatures s tx signatures =
    if tx.signed
    then (tx, some Failure.already_signed)
    else (if length signatures == length tx.msg_tx.tx_in
        then add_signatures_loop s 0 signatures tx
        else (tx, some Failure.signature_count))
