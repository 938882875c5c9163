-- ===== src/Solana/Client/Fresh.antt =====
-- chain/solana: a transfer of tokens to a wallet that has no account yet.
use crosschain_enhanced_by_a.Prelude.{
  ℕ, true, List, none, ok, >>=-eq-ok, ok_injective, ◌≡◌, refl, ap, sym, ◌∙◌, inl, inr, false≢true,
}
use crosschain_enhanced_by_a.Prelude.Int.{ℤ}
use crosschain_enhanced_by_a.Prelude.Text.{Text}
use crosschain_enhanced_by_a.Asset.Config.{TokenConfig}
use crosschain_enhanced_by_a.Solana.{Key, TxInput, Sol, token, single, key_of}
use crosschain_enhanced_by_a.Solana.Tx.{Tx, parse_transfer, to_alt}
use crosschain_enhanced_by_a.Solana.Builder.{token_transfer_of}
use crosschain_enhanced_by_a.Solana.Laws.{IsSol}
use crosschain_enhanced_by_a.Solana.TokenRead.{token_transfer_of-ReadsToken}
use crosschain_enhanced_by_a.Solana.Client.{
  Node, known_hash, is_ata, account_asked, token_input, fetch_tx_input, input_contract,
}

module _ (sol : Sol) (node : Node sol) (recipient : Text) (wallet : Key) where
  token_input-fresh :
      (recent : List ℕ) (contract : Text)
      → key_of sol recipient ≡ ok wallet
      → ((n : ℕ) → node.account_info n wallet ≡ none)
      → token_input sol node recent contract recipient
        ≡ ok (record { recent_block_hash = recent; to_is_ata = true; should_create_ata = true })
  unfolding token_input is_ata account_asked
  token_input-fresh recent contract known missing =
      rw (token_input, known, missing 0, missing 1) refl

  -- For a wallet that the node has no account of, the input of a token transfer takes the wallet for
  -- an account of tokens, and asks for the creation of one.
  pub fetch_tx_input-fresh :
      (t : TokenConfig) (input : TxInput)
      → key_of sol recipient ≡ ok wallet
      → ((n : ℕ) → node.account_info n wallet ≡ none)
      → fetch_tx_input sol node (single (token t)) recipient ≡ ok input
      → (input.to_is_ata ≡ true) × (input.should_create_ata ≡ true)
  unfolding fetch_tx_input input_contract
  fetch_tx_input-fresh t input known missing e =
      let (recent, _, rest) = >>=-eq-ok (known_hash sol node.recent_block_hash) _ e in
      let same = ok_injective (sym (token_input-fresh recent t.contract known missing) ∙ rest) in
      (sym (ap (λ i. i.to_is_ata) same), sym (ap (λ i. i.should_create_ata) same))

  -- With the laws of the library, where the node has no account of the wallet, a token transfer that is
  -- built from the input of `FetchTxInput` sends the tokens to the wallet's own address, and
  -- that input asks for the creation of an account.
  pub fetch_tx_input-misdirects :
      (laws : IsSol sol) (t : TokenConfig) (input : TxInput) (decimals : ℕ) (sender : Text)
      (value : ℤ) (tx : Tx sol)
      → key_of sol recipient ≡ ok wallet
      → ((n : ℕ) → node.account_info n wallet ≡ none)
      → fetch_tx_input sol node (single (token t)) recipient ≡ ok input
      → token_transfer_of sol t.contract decimals sender recipient value input ≡ ok tx
      → (input.should_create_ata ≡ true) × (to_alt sol (parse_transfer sol tx) ≡ recipient)
  fetch_tx_input-misdirects laws t input decimals sender value tx known missing fetched built =
      let (ata, creates) = fetch_tx_input-fresh t input known missing fetched in
      let read =
        token_transfer_of-ReadsToken sol laws t.contract decimals sender recipient value input tx
          built in
      (creates, elim read.4 [ inl h ↦ h.1 | inr h ↦ absurd (false≢true (sym h.0 ∙ ata)) ])
