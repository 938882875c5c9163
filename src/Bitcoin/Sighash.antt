-- ===== src/Bitcoin/Sighash.antt =====
-- chain/bitcoin/tx.go: `Sighashes`, the payloads to sign, and chain/bitcoin/bitcoincash.go:
-- `CalculateBchBip143Sighash`. A nil hash is the empty list. Logging is left out.
pub mod Each
pub mod Amount
use crosschain_enhanced_by_a.Prelude.{
  ℕ, zero, suc, ◌+◌, ◌-◌, ◌/◌, ◌%◌, ◌^◌, Bool, true, false, not, ◌&&◌, List, [], ◌∷◌, ◌++◌, Option,
  none, some, Result, ok, err, ◌>>=◌, if◌then◌else◌, get_elem?, replicate, ◌==◌,
}
use crosschain_enhanced_by_a.Prelude.Int.{ℤ, pos, negsuc}
use crosschain_enhanced_by_a.Bitcoin.{Input}
use crosschain_enhanced_by_a.Bitcoin.Failure.{Failure}
use crosschain_enhanced_by_a.Bitcoin.Tx.{TxIn, TxOut, MsgTx, Tx, uint64, to_signed}
use crosschain_enhanced_by_a.Bitcoin.Signing.{Scripts, sig_hash_all, sighash_fork_id}

-- What the two functions call of txscript, wire and chainhash, and the sequence number and lock
-- time that `wire` gives each input and transaction it makes.
pub record Hashing : Type 0 where
  pub calc_witness_sig_hash : List ℕ → MsgTx → ℕ → ℤ → Option (List ℕ)
  pub calc_signature_hash : List ℕ → MsgTx → ℕ → Option (List ℕ)
  pub hash_prev_outs : MsgTx → List ℕ
  pub hash_sequence : MsgTx → List ℕ
  pub hash_outputs : MsgTx → List ℕ
  pub write_var_bytes : List ℕ → List ℕ
  pub write_tx_out : TxOut → List ℕ
  pub double_hash : List ℕ → List ℕ
  pub sequence : ℕ
  pub lock_time : ℕ

-- `binary.LittleEndian`: the `n` low bytes.
unfoldable pub little_endian : ℕ → ℕ → List ℕ
little_endian zero x = []
little_endian (suc n) x = x % 256 ∷ little_endian n (x / 256)

-- `uint64(amt)` of an int64.
unfoldable pub unsigned : ℤ → ℕ
unsigned (pos n) = n % 2 ^ 64
unsigned (negsuc n) = (2 ^ 64 - suc n % 2 ^ 64) % 2 ^ 64

abbrev pub zero_hash : List ℕ
zero_hash = replicate 32 0

-- `hashType&txscript.SigHashAnyOneCanPay == 0`
abbrev pub all_pay : ℕ → Bool
all_pay hash_type = (hash_type / 128) % 2 == 0

-- `hashType&SighashMask`, and the values of `SigHashNone` and `SigHashSingle`.
abbrev pub masked : ℕ → ℕ
masked hash_type = hash_type % 32

abbrev pub sig_hash_none : ℕ
sig_hash_none = 2

abbrev pub sig_hash_single : ℕ
sig_hash_single = 3

abbrev pub plain : ℕ → Bool
plain hash_type =
    not (masked hash_type == sig_hash_single) && not (masked hash_type == sig_hash_none)

-- `hashType|SighashForkID`
abbrev pub with_fork_id : ℕ → ℕ
with_fork_id hash_type =
    if (hash_type / 64) % 2 == 1 then hash_type else hash_type + sighash_fork_id

-- What stands before the amount in the preimage.
unfoldable pub preimage_head : Hashing → List ℕ → ℕ → MsgTx → TxIn → List ℕ
unfolding little_endian
preimage_head h sub_script hash_type msg t =
    little_endian 4 msg.version
    ++ (if all_pay hash_type then h.hash_prev_outs msg else zero_hash)
    ++ (if all_pay hash_type && plain hash_type then h.hash_sequence msg else zero_hash)
    ++ t.hash
    ++ little_endian 4 t.index
    ++ h.write_var_bytes sub_script

-- What stands behind the amount.
unfoldable pub preimage_tail : Hashing → ℕ → MsgTx → ℕ → List ℕ
unfolding little_endian
preimage_tail h hash_type msg idx =
    let single : List ℕ = elim (get_elem? msg.tx_out idx) [
      | some out ↦ h.double_hash (h.write_tx_out out)
      | none ↦ zero_hash
    ] in
    little_endian 4 h.sequence
    ++ (if plain hash_type
        then h.hash_outputs msg
        else (if masked hash_type == sig_hash_single then single else zero_hash))
    ++ little_endian 4 h.lock_time
    ++ little_endian 4 (with_fork_id hash_type)

-- The bytes that are hashed.
unfoldable pub bch_preimage : Hashing → List ℕ → ℕ → MsgTx → ℕ → TxIn → ℤ → List ℕ
unfolding preimage_head preimage_tail little_endian unsigned
bch_preimage h sub_script hash_type msg idx t amt =
    preimage_head h sub_script hash_type msg t
    ++ (little_endian 8 (unsigned amt) ++ preimage_tail h hash_type msg idx)

-- `CalculateBchBip143Sighash`
unfoldable pub calculate_bch_bip143_sighash : Hashing → List ℕ → ℕ → MsgTx → ℕ → ℤ → List ℕ
unfolding bch_preimage
calculate_bch_bip143_sighash h sub_script hash_type msg idx amt = elim (get_elem? msg.tx_in idx) [
  | none ↦ []
  | some t ↦ h.double_hash (bch_preimage h sub_script hash_type msg idx t amt)
]

abbrev pub checked : Option (List ℕ) → Result Failure (List ℕ)
checked none = err Failure.bad_sighash
checked (some hash) = ok hash

-- The body of the loop of `Sighashes`, at the index `i`.
unfoldable pub sighash : Scripts → Hashing → Tx → ℕ → Input → Result Failure (List ℕ)
unfolding calculate_bch_bip143_sighash to_signed uint64
sighash s h tx i txin =
    let script = txin.output.pub_key_script in
    let value = to_signed (uint64 txin.output.value) in
    elim txin.sig_script [
      | none ↦
          if tx.is_bch
          then ok (calculate_bch_bip143_sighash h script sig_hash_all tx.msg_tx i value)
          else (if s.is_pay_to_witness_pub_key_hash script
              then checked (h.calc_witness_sig_hash script tx.msg_tx i value)
              else checked (h.calc_signature_hash script tx.msg_tx i))
      | some c ↦
          if tx.is_bch
          then ok (calculate_bch_bip143_sighash h c sig_hash_all tx.msg_tx i value)
          else (if s.is_pay_to_witness_script_hash script
              then checked (h.calc_witness_sig_hash c tx.msg_tx i value)
              else checked (h.calc_signature_hash c tx.msg_tx i))
    ]

-- The loop of `Sighashes` from the index `i` on.
unfoldable pub sighashes_loop :
    Scripts → Hashing → Tx → ℕ → List Input → Result Failure (List (List ℕ))
unfolding sighash
sighashes_loop s h tx i [] = ok []
sighashes_loop s h tx i (txin ∷ rest) = sighash s h tx i txin >>= λ hash.
    sighashes_loop s h tx (suc i) rest >>= λ hashes. ok (hash ∷ hashes)

-- `Sighashes`
unfoldable pub sighashes : Scripts → Hashing → Tx → Result Failure (List (List ℕ))
unfolding sighashes_loop
sighashes s h tx = sighashes_loop s h tx 0 tx.input.inputs
