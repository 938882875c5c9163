-- ===== src/Bitcoin/Outputs/Listed.antt =====
-- chain/bitcoin/tx.go: what `Outputs` lists.
use crosschain_enhanced_by_a.Prelude.{
  ℕ, ◌+◌, false, List, [], ◌∷◌, map, ◌≡◌, refl, ap, arith, ok, All,
}
use crosschain_enhanced_by_a.Prelude.Int.{pos, ◌≤ℤ◌, ltb_ℤ}
use crosschain_enhanced_by_a.Prelude.Text.{Text}
use crosschain_enhanced_by_a.Bitcoin.{Output}
use crosschain_enhanced_by_a.Bitcoin.Tx.{TxOut, MsgTx, Tx}
use crosschain_enhanced_by_a.Bitcoin.Outputs.{output_at, outputs_loop, outputs}

-- What an output pays, and to which script.
abbrev pub payment_of : Output → TxOut
payment_of o = record { value = o.value; script = o.pub_key_script }

abbrev pub NonNegative : List TxOut → Type 0
NonNegative os = All (λ (o : TxOut). pos 0 ≤ℤ o.value) os

loop_lists :
    (hash : Text) (i : ℕ) (os : List TxOut)
    → NonNegative os
    → (l : List Output) × (outputs_loop hash i os ≡ ok l) × (map payment_of l ≡ os)
unfolding outputs_loop
loop_lists hash i [] h = ([], refl, refl)
loop_lists hash i (o ∷ os) h =
    let (l, e, m) = loop_lists hash (i + 1) os h.1 in
    let plain : ltb_ℤ o.value (pos 0) ≡ false = ground arith in
    (output_at hash i o ∷ l, rw (plain, e) refl, ap (◌∷◌ o) m)

-- Where no output of the transaction is negative, `Outputs` lists them all in order, with their
-- values and scripts.
pub outputs-lists :
    (tx_hash : MsgTx → List ℕ) (tx : Tx)
    → NonNegative tx.msg_tx.tx_out
    → (l : List Output) × (outputs tx_hash tx ≡ ok l) × (map payment_of l ≡ tx.msg_tx.tx_out)
unfolding outputs
outputs-lists tx_hash tx h = loop_lists _ 0 tx.msg_tx.tx_out h
