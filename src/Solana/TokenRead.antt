-- ===== src/Solana/TokenRead.antt =====
-- chain/solana: a token transfer that the builder makes is read back by `ParseTransfer`.
use crosschain_enhanced_by_a.Prelude.{
  ℕ, true, false, [], ok, ◌>>=◌, >>=-eq-ok, ok_injective, ◌≡◌, refl, ap, sym, subst, ◌∙◌, ◌⊎◌, inl,
  inr, Bool-cases,
}
use crosschain_enhanced_by_a.Prelude.Int.{ℤ, pos}
use crosschain_enhanced_by_a.Prelude.Text.{Text}
use crosschain_enhanced_by_a.Bitcoin.Tx.{uint64}
use crosschain_enhanced_by_a.Solana.{
  Key, Failure, TxInput, token_checked, Sol, key_of, find_associated_token_address, must_key,
}
use crosschain_enhanced_by_a.Solana.Tx.{
  Tx, parse_transfer, from, to, to_alt, amount, contract_address,
}
use crosschain_enhanced_by_a.Solana.Builder.{token_destination, creation, token_transfer_of}
use crosschain_enhanced_by_a.Solana.Laws.{IsSol}
use crosschain_enhanced_by_a.Solana.ReadBack.{
  key_of-prints, or_fail-eq-ok, token_instructions, search_system-none, search_token, parse-checked,
  build-eq-ok,
}

module _ (sol : Sol) (laws : IsSol sol) where
  must_key-prints : (s : Text) (k : Key) → must_key sol s ≡ ok k → sol.base58 k ≡ s
  unfolding must_key
  must_key-prints s k h =
      laws.prints s k (or_fail-eq-ok sol laws Failure.panic (sol.key_of_base58 s) k h)

  -- The account that receives the tokens: the recipient, or its associated account for the contract.
  abbrev pub IsDestination : Text → Text → TxInput → Text → Type 0
  IsDestination contract recipient input account =
      ((input.to_is_ata ≡ true) × (account ≡ recipient))
      ⊎ ((input.to_is_ata ≡ false)
          × (find_associated_token_address sol recipient contract ≡ ok account))

  token_destination-IsDestination :
      (recipient contract : Text) (wallet k : Key) (input : TxInput)
      → key_of sol recipient ≡ ok wallet
      → token_destination sol recipient contract wallet input ≡ ok k
      → IsDestination contract recipient input (sol.base58 k)
  unfolding token_destination
  token_destination-IsDestination recipient contract wallet k input known e =
      elim (Bool-cases input.to_is_ata) [
        | inl h ↦ inl (
          h,
          ap sol.base58 (sym (ok_injective (sym (taken h) ∙ e)))
              ∙ key_of-prints sol laws recipient wallet known,
        )
        | inr h ↦
            let (text, found, last) =
              >>=-eq-ok (find_associated_token_address sol recipient contract) (must_key sol)
                (sym (looked_up h) ∙ e) in
            inr (h, found ∙ ap ok (sym (must_key-prints text k last)))
      ]
    where
      taken :
          input.to_is_ata ≡ true → token_destination sol recipient contract wallet input ≡ ok wallet
      taken h = rw (token_destination, h) refl

      looked_up :
          input.to_is_ata ≡ false
          → token_destination sol recipient contract wallet input
            ≡ (find_associated_token_address sol recipient contract >>= must_key sol)
      looked_up h = rw (token_destination, h) refl

  -- What is read off a token transfer, before its associated account is known.
  abbrev pub ReadsToken : Text → Text → Text → ℤ → TxInput → Tx sol → Type 0
  ReadsToken contract sender recipient value input tx =
      (from sol tx ≡ ok sender)
      × (to sol tx ≡ ok [])
      × (amount sol tx ≡ pos (uint64 value))
      × (contract_address sol tx ≡ contract)
      × IsDestination contract recipient input (to_alt sol tx)

  -- With the laws of the library, a token transfer that is built is read back by `ParseTransfer`: its sender, its contract, the low
  -- 64 bits of its amount, and the account of the tokens as the alternative recipient. The recipient
  -- itself is not read.
  pub token_transfer_of-ReadsToken :
      (contract : Text) (decimals : ℕ) (sender recipient : Text) (value : ℤ) (input : TxInput)
      (tx : Tx sol)
      → token_transfer_of sol contract decimals sender recipient value input ≡ ok tx
      → ReadsToken contract sender recipient value input (parse_transfer sol tx)
  unfolding token_transfer_of creation from to amount to_alt contract_address
  token_transfer_of-ReadsToken contract decimals sender recipient value input tx e =
      let (a, from_known, e₁) = >>=-eq-ok (key_of sol sender) _ e in
      let (m, contract_known, e₂) = >>=-eq-ok (key_of sol contract) _ e₁ in
      let (b, to_known, e₃) = >>=-eq-ok (key_of sol recipient) _ e₂ in
      let (text, ata_text, e₄) =
        >>=-eq-ok (find_associated_token_address sol sender contract) _ e₃ in
      let (source, ata_known, e₅) = >>=-eq-ok (must_key sol text) _ e₄ in
      let (dst, dst_known, e₆) =
        >>=-eq-ok (token_destination sol recipient contract b input) _ e₅ in
      let is =
        token_instructions sol laws input.should_create_ata b m (uint64 value) decimals source dst
          a in
      let (t, made, same) = build-eq-ok sol laws is a input tx e₆ in
      let held = laws.holds is input.recent_block_hash a t made in
      let none_found =
        search_system-none sol laws t (sol.instructions_of t) input.should_create_ata b m
          (uint64 value) decimals source dst a held in
      let found =
        search_token sol laws t (sol.instructions_of t) input.should_create_ata b m (uint64 value)
          decimals source dst a held in
      subst (ReadsToken contract sender recipient value input)
        (sym (parse-checked sol laws t (token_checked (uint64 value) m dst a) none_found found)
          ∙ ap (parse_transfer sol) same)
        (
          ap ok (key_of-prints sol laws sender a from_known),
          refl,
          refl,
          key_of-prints sol laws contract m contract_known,
          token_destination-IsDestination recipient contract b dst input to_known dst_known,
        )
