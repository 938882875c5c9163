-- ===== src/Bitcoin/Sighash/Amount.antt =====
-- chain/bitcoin/bitcoincash.go: the bytes that are hashed commit to the amount.
use crosschain_enhanced_by_a.Prelude.{
  ℕ, zero, suc, ◌/◌, ◌%◌, List, [], ◌∷◌, ◌++◌, ◌≡◌, sym, ◌∙◌, arith,
}
use crosschain_enhanced_by_a.Prelude.Int.{ℤ}
use crosschain_enhanced_by_a.Bitcoin.Tx.{TxIn, MsgTx}
use crosschain_enhanced_by_a.Bitcoin.Sighash.{
  Hashing, little_endian, unsigned, preimage_head, preimage_tail, bch_preimage,
}

append_cancel {ℓ} : {A : Type ℓ} (xs : List A) {ys zs : List A} → xs ++ ys ≡ xs ++ zs → ys ≡ zs
append_cancel [] e = e
append_cancel (x ∷ xs) e = append_cancel xs (cc)

-- `n` bytes hold the number.
abbrev Fits : ℕ → ℕ → Type 0
Fits zero a = a ≡ 0
Fits (suc n) a = Fits n (a / 256)

head_of : (x y : ℕ) (xs ys : List ℕ) → x ∷ xs ≡ y ∷ ys → x ≡ y
head_of x y xs ys e = cc

tail_of : (x y : ℕ) (xs ys : List ℕ) → x ∷ xs ≡ y ∷ ys → xs ≡ ys
tail_of x y xs ys e = cc

little_endian_injective :
    (n a b : ℕ) (xs ys : List ℕ)
    → Fits n a
    → Fits n b
    → little_endian n a ++ xs ≡ little_endian n b ++ ys
    → a ≡ b
unfolding little_endian
little_endian_injective zero a b xs ys fa fb e = fa ∙ sym fb
little_endian_injective (suc n) a b xs ys fa fb e = omega (
  arith,
  head_of (a % 256) (b % 256) _ _ e,
  little_endian_injective n (a / 256) (b / 256) xs ys fa fb (tail_of (a % 256) (b % 256) _ _ e),
)

Fits-unsigned : (a : ℤ) → Fits 8 (unsigned a)
unfolding unsigned
Fits-unsigned a = ground arith

-- Equal preimages for one input of one transaction, with one script and hash type, are of amounts
-- with the same 64 bits.
pub bch_preimage-amount :
    (h : Hashing) (sub_script : List ℕ) (hash_type : ℕ) (msg : MsgTx) (idx : ℕ) (t : TxIn) (a b : ℤ)
    → bch_preimage h sub_script hash_type msg idx t a
      ≡ bch_preimage h sub_script hash_type msg idx t b
    → unsigned a ≡ unsigned b
unfolding bch_preimage
bch_preimage-amount h sub_script hash_type msg idx t a b e =
    little_endian_injective 8 (unsigned a) (unsigned b) (preimage_tail h hash_type msg idx)
      (preimage_tail h hash_type msg idx) (Fits-unsigned a) (Fits-unsigned b)
      (append_cancel (preimage_head h sub_script hash_type msg t) e)
