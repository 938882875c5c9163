-- ===== src/Solana/Tx/Signatures.antt =====
-- chain/solana/tx.go: which signatures `AddSignatures` takes.
use crosschain_enhanced_by_a.Prelude.{
  ℕ, false, List, [], ◌∷◌, some, none, ok, err, ◌≡◌, refl, ap, ◌⊎◌, inl, inr, Bool-cases, All, ◌==◌,
  length, arith,
}
use crosschain_enhanced_by_a.Solana.{Failure, Sol}
use crosschain_enhanced_by_a.Solana.Tx.{
  Tx, hash, sol_signatures, add_signatures, first_signature, signed_by,
}

module _ (sol : Sol) where
  abbrev pub IsSize : List ℕ → Type 0
  IsSize s = length s ≡ 64

  sol_signatures-cases :
      (ss : List (List ℕ))
      → ((sol_signatures sol ss ≡ ok ss) × All IsSize ss)
        ⊎ ((sol_signatures sol ss ≡ err Failure.bad_signature) × (¬ All IsSize ss))
  unfolding sol_signatures
  sol_signatures-cases [] = inl (refl, tt)
  sol_signatures-cases (s ∷ ss) = elim (Bool-cases (length s == 64)) [
    | inr h ↦ inr (rw (sol_signatures, h) refl, λ all. wrong_size s h all.0)
    | inl h ↦ elim (sol_signatures-cases ss) [
      | inl k ↦ inl (rw (sol_signatures, h, k.0) refl, (ground (arith, h), k.1))
      | inr k ↦ inr (rw (sol_signatures, h, k.0) refl, λ all. k.1 all.1)
    ]
  ]
    where
      wrong_size : (s : List ℕ) → (length s == 64) ≡ false → length s ≡ 64 → ⊥
      wrong_size s h e = ground (arith, h, e)

  -- `AddSignatures` on a transaction: signatures of 64 bytes each are set all at once, and the hash is
  -- the text of the first that the transaction then holds; any other signature changes nothing.
  pub add_signatures-cases :
      (t : sol.Transaction) (start : Tx sol) (ss : List (List ℕ))
      → let tx = record start { sol_tx = some t } in
        let result = add_signatures sol tx ss in
        let signed = sol.with_signatures t ss in
        (All IsSize ss
          × (result ≡ (record tx { sol_tx = some signed }, none))
          × (hash sol result.0 ≡ first_signature sol (sol.signatures_of signed)))
        ⊎ ((¬ All IsSize ss) × (result ≡ (tx, some Failure.bad_signature)))
  unfolding add_signatures hash
  add_signatures-cases t start ss = elim (sol_signatures-cases ss) [
    | inl h ↦ inl (
      h.1,
      ap (signed_by sol (record start { sol_tx = some t }) t) h.0,
      ap (λ r. hash sol (signed_by sol (record start { sol_tx = some t }) t r).0) h.0,
    )
    | inr h ↦ inr (h.1, ap (signed_by sol (record start { sol_tx = some t }) t) h.0)
  ]
