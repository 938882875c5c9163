-- ===== src/Bitcoin/Outputs.antt =====
-- chain/bitcoin/tx.go: `Hash` and `Outputs`. The 32 bytes of `msgTx.TxHash` are an argument.

pub mod Listed
use crosschain_enhanced_by_a.Prelude.{
  ℕ, zero, suc, ◌+◌, ◌-◌, ◌/◌, ◌%◌, ◌^◌, Bool, true, false, List, [], ◌∷◌, ◌++◌, Option, none, some,
  Result, ok, err, ◌>>=◌, if◌then◌else◌, ltb, length, get_elem?,
}
use crosschain_enhanced_by_a.Prelude.Int.{ℤ, pos, negsuc, ltb_ℤ}
use crosschain_enhanced_by_a.Prelude.Text.{Text}
use crosschain_enhanced_by_a.Prelude.Bytes.{hex_encode}
use crosschain_enhanced_by_a.Bitcoin.{Output, Outpoint}
use crosschain_enhanced_by_a.Bitcoin.Failure.{Failure}
use crosschain_enhanced_by_a.Bitcoin.Tx.{TxOut, MsgTx, Tx}

-- The entry at the index `i`.
abbrev pub output_at : Text → ℕ → TxOut → Output
output_at hash i o = record {
  outpoint = record { hash = hash; index = i % 2 ^ 32 };
  value = o.value;
  pub_key_script = o.script;
}

-- The loop of `Outputs` from the index `i` on: the hash is the text of its digits, as bytes.
unfoldable pub outputs_loop : Text → ℕ → List TxOut → Result Failure (List Output)
outputs_loop hash i [] = ok []
outputs_loop hash i (o ∷ os) =
    let rest = outputs_loop hash (i + 1) os in
    if ltb_ℤ o.value (pos 0)
    then err Failure.negative_value
    else (rest >>= λ outputs. ok (output_at hash i o ∷ outputs))

-- `Outputs`
unfoldable pub outputs : (MsgTx → List ℕ) → Tx → Result Failure (List Output)
unfolding outputs_loop hex_encode
outputs tx_hash tx = outputs_loop (hex_encode (tx_hash tx.msg_tx)) 0 tx.msg_tx.tx_out
