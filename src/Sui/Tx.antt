-- ===== src/Sui/Tx.antt =====
-- chain/sui/tx.go: hashes and signatures of a transaction, and the public key of an input. The BCS
-- encoder, blake2b, base58 and base64 are arguments; a returned error is `none`.
use crosschain_enhanced_by_a.Prelude.{
  ℕ, List, [], ◌∷◌, ◌++◌, Option, none, some, Result, ok, err, ◌>>=◌, ◌||◌, if◌then◌else◌, ◌==◌,
  length, map, ◌≡◌, sym, ◌∙◌, append_assoc, append-nil,
}
use crosschain_enhanced_by_a.Prelude.Text.{Text, codes}
use crosschain_enhanced_by_a.Evm.Number.{hex_decode}
use crosschain_enhanced_by_a.Sui.{TxInput, Failure}
use crosschain_enhanced_by_a.Sui.Builder.{TransactionData, Tx}

-- What the file calls of other packages.
pub record Crypto : Type 0 where
  pub bcs_serialize : TransactionData → Option (List ℕ)
  pub sum_256 : List ℕ → List ℕ
  pub base58_encode : List ℕ → Text
  pub base64_decode : Text → Option (List ℕ)

-- The signature as Sui expects it: the flag 0, the signature, the public key.
unfoldable pub sui_signature : List ℕ → List ℕ → List ℕ
sui_signature public_key sig = 0 ∷ sig ++ public_key

-- `AddSignatures`
unfoldable pub add_signatures : Tx → List (List ℕ) → Tx
unfolding sui_signature
add_signatures tx [] = tx
add_signatures tx (sig ∷ sigs) =
    add_signatures
      (record tx { signatures = tx.signatures ++ sui_signature tx.public_key sig ∷ [] }) sigs

module _ (crypto : Crypto) where
  -- `SetPublicKeyFromStr`: hexadecimal by the length of the text, and base64 otherwise.
  unfoldable pub set_public_key_from_str : TxInput → Text → Result Failure TxInput
  unfolding hex_decode
  set_public_key_from_str input s =
      elim (if length s == 64 || length s == 128 then hex_decode s else crypto.base64_decode s) [
        | none ↦ err Failure.bad_hex
        | some key ↦ ok (record input { pubkey = key })
      ]

  -- `Serialize`
  unfoldable pub serialize : Tx → Result Failure (List ℕ)
  serialize tx = elim (crypto.bcs_serialize tx.tx_data) [
    | none ↦ err Failure.not_serialized
    | some bytes ↦ ok bytes
  ]

  -- `Sighashes`: of the intent and the transaction.
  unfoldable pub sighashes : Tx → Result Failure (List (List ℕ))
  unfolding serialize
  sighashes tx = do bytes ← serialize tx; ok (crypto.sum_256 (0 ∷ 0 ∷ 0 ∷ bytes) ∷ [])

  -- `Hash`, which panics on an error
  unfoldable pub hash : Tx → Result Failure Text
  unfolding serialize
  hash tx = elim (serialize tx) [
    | err _ ↦ err Failure.panic
    | ok bytes ↦ ok (crypto.base58_encode (crypto.sum_256 (codes "TransactionData::" ++ bytes)))
  ]

-- The signatures are appended in their order, each with the flag and the public key, and signing changes
-- neither the data that is hashed nor the key.
pub add_signatures-appends :
    (tx : Tx) (sigs : List (List ℕ))
    → (add_signatures tx sigs).signatures ≡ tx.signatures ++ map (sui_signature tx.public_key) sigs
unfolding add_signatures
add_signatures-appends tx [] = sym (append-nil tx.signatures)
add_signatures-appends tx (sig ∷ sigs) =
    add_signatures-appends
      (record tx { signatures = tx.signatures ++ sui_signature tx.public_key sig ∷ [] }) sigs
    ∙ append_assoc tx.signatures (sui_signature tx.public_key sig ∷ [])
        (map (sui_signature tx.public_key) sigs)
