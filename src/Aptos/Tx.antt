-- ===== src/Aptos/Tx.antt =====
-- chain/aptos/tx.go: a transaction, its hash and its signature.
use crosschain_enhanced_by_a.Prelude.{
  ℕ, ◌||◌, List, [], ◌∷◌, ◌++◌, Option, none, some, Result, ok, err, ◌>>=◌, if◌then◌else◌, ◌==◌,
  length,
}
use crosschain_enhanced_by_a.Prelude.Text.{Text, codes, is_empty}
use crosschain_enhanced_by_a.Prelude.Bytes.{hex_encode}
use crosschain_enhanced_by_a.Evm.Number.{hex_decode}
use crosschain_enhanced_by_a.Aptos.{Failure, TxInput, RawTransaction, Apt, or_fail}

module _ (apt : Apt) where
  -- `Tx`
  pub record Tx : Type 0 where
    pub input : TxInput
    pub tx : RawTransaction apt.ModuleId apt.TypeTag
    pub tx_serialized : List ℕ
    pub tx_signing_message : List ℕ
    pub tx_signature : List ℕ

  -- `Hash`
  unfoldable pub hash : Tx → Text
  unfolding hex_encode
  hash t =
      hex_encode (apt.sha3_256 (apt.sha3_256 (codes "APTOS::Transaction") ++ (0 ∷ t.tx_serialized)))

  -- `Sighashes`
  unfoldable pub sighashes : Tx → Result Failure (List (List ℕ))
  sighashes t =
      or_fail Failure.no_signing_message (apt.signing_message t.tx) >>= λ message. ok (message ∷ [])

  -- `Serialize`
  unfoldable pub serialize : Tx → Result Failure (List ℕ)
  serialize t =
      let signed = or_fail Failure.bad_public_key (apt.public_key t.input.pubkey) >>= λ key.
      or_fail Failure.bad_signature (apt.signature t.tx_signature) >>= λ signature.
      or_fail Failure.bad_transaction (apt.marshal_signed t.tx key signature) in
      if is_empty t.tx_signature || is_empty t.tx_signing_message
      then err Failure.not_signed
      else if is_empty t.input.pubkey
      then err Failure.no_public_key
      else signed

  abbrev pub serialized_by : Tx → Result Failure (List ℕ) → Tx × Option Failure
  serialized_by t (err e) = (t, some e)
  serialized_by t (ok bytes) = (record t { tx_serialized = bytes }, none)

  abbrev pub signed_with : Tx → List ℕ → List (List ℕ) → Tx × Option Failure
  signed_with t message (signature ∷ []) =
      let signed = record t { tx_signing_message = message; tx_signature = signature } in
      serialized_by signed (serialize signed)
  signed_with t message _ = (t, some Failure.not_one_signature)

  -- `AddSignatures`: the transaction after the call, and the error.
  unfoldable pub add_signatures : Tx → List (List ℕ) → Tx × Option Failure
  unfolding serialize
  add_signatures t signatures = elim (apt.signing_message t.tx) [
    | none ↦ (t, some Failure.no_signing_message)
    | some message ↦ signed_with t message signatures
  ]

  -- `SetPublicKeyFromStr`
  unfoldable pub set_public_key_from_str : TxInput → Text → Result Failure TxInput
  unfolding hex_decode
  set_public_key_from_str input text =
      let hex = or_fail Failure.bad_hex (hex_decode text) in
      let base64 = or_fail Failure.bad_base64 (apt.base64_decode text) in
      (if length text == 128 || length text == 130 then hex else base64) >>= λ key.
      ok (record input { pubkey = key })
