-- ===== src/Tests/Signed.antt =====
-- Tests of signing and of the hashes that are signed.
use crosschain_enhanced_by_a.Prelude.{
  ℕ, true, false, List, [], ◌∷◌, none, ◌≡◌, refl, ap, ◌+◌, ◌^◌, arith, ok, replicate, All,
}
use crosschain_enhanced_by_a.Prelude.Int.{ℤ, pos}
use crosschain_enhanced_by_a.Bitcoin.Tx.{Tx}
use crosschain_enhanced_by_a.Bitcoin.Signing.{add_signatures, is_signature, sig_hash_all}
use crosschain_enhanced_by_a.Bitcoin.Signing.Each.{Accepts, IsShort, add_signatures-each}
use crosschain_enhanced_by_a.Bitcoin.Signing.Refusal.{payment, add_signatures-payment}
use crosschain_enhanced_by_a.Bitcoin.Sighash.{
  sighashes, sighashes_loop, sighash, bch_preimage, unsigned,
}
use crosschain_enhanced_by_a.Bitcoin.Sighash.Amount.{bch_preimage-amount}
use crosschain_enhanced_by_a.Tests.Sample.{scripts, hashing, unsigned_tx, tx_in}

abbrev signatures : List (List ℕ)
signatures = replicate 64 1 ∷ replicate 65 2 ∷ []

abbrev plain_tx : Tx
plain_tx = unsigned_tx false

accepts : Accepts scripts
accepts items few small = refl

short : IsShort scripts
short a b = omega arith

well_formed : All (λ (rsv : List ℕ). is_signature rsv ≡ true) signatures
well_formed = (refl, (refl, tt))

add_signatures-payment_example :
    payment (add_signatures scripts plain_tx signatures).0 ≡ payment plain_tx
add_signatures-payment_example = add_signatures-payment scripts plain_tx signatures

signs : (add_signatures scripts plain_tx signatures).1 ≡ none
signs =
    ap (λ r. r.1)
      (add_signatures-each scripts plain_tx signatures accepts short refl refl (omega arith)
        (omega arith) (tt, (tt, tt)) well_formed)

abbrev plain_hashes : List (List ℕ)
plain_hashes = (2 ∷ 118 ∷ []) ∷ (2 ∷ 118 ∷ []) ∷ []

hashed : sighashes scripts hashing plain_tx ≡ ok plain_hashes
unfolding sighashes sighashes_loop sighash
hashed = refl

-- An amount and the one that wraps around to it.
abbrev wrapped : ℤ
wrapped = pos (2 ^ 64 + 5000)

same_bytes :
    bch_preimage hashing (118 ∷ []) sig_hash_all plain_tx.msg_tx 0 tx_in (pos 5000)
    ≡ bch_preimage hashing (118 ∷ []) sig_hash_all plain_tx.msg_tx 0 tx_in wrapped
unfolding bch_preimage unsigned
same_bytes = refl

bch_preimage-amount_example : unsigned (pos 5000) ≡ unsigned wrapped
bch_preimage-amount_example =
    bch_preimage-amount hashing (118 ∷ []) sig_hash_all plain_tx.msg_tx 0 tx_in (pos 5000) wrapped
      same_bytes
