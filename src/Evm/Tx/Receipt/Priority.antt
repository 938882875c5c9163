-- ===== src/Evm/Tx/Receipt/Priority.antt =====
-- chain/evm/tx.go: a token transfer is read off its payload before the logs of its receipt.
use crosschain_enhanced_by_a.Prelude.{
  ℕ, ◌^◌, ◌<◌, true, false, List, [], ◌∷◌, ok, ◌≡◌, refl, arith, ltb, length,
}
use crosschain_enhanced_by_a.Prelude.Int.{pos}
use crosschain_enhanced_by_a.Prelude.Text.{Text, eq_text}
use crosschain_enhanced_by_a.Prelude.Bytes.{hex_encode, hex_digit}
use crosschain_enhanced_by_a.Evm.{Eth}
use crosschain_enhanced_by_a.Evm.Tx.{Endpoint, ensure_0x, address_at, from}
use crosschain_enhanced_by_a.Evm.Tx.Batch.{multisend_kind}
use crosschain_enhanced_by_a.Evm.Tx.Receipt.{Log, Erc20, parse_transfer}
use crosschain_enhanced_by_a.Evm.Builder.{padded_amount}
use crosschain_enhanced_by_a.Evm.Builder.Words.{address_at-left_pad}
use crosschain_enhanced_by_a.Evm.Builder.ReadBack.{
  transfer_id, erc20_payload, erc20-is_transfer, erc20-amount, Carries, with_signer, to_string-some,
}

module _ (eth : Eth) where
  -- The two endpoints of a token transfer.
  abbrev pub token_endpoint : Text → List ℕ → ℕ → Text → Endpoint
  token_endpoint account contract n native = record {
    address = account;
    contract_address = eth.address_string contract;
    amount = pos n;
    native_asset = native;
    asset = [];
  }

module _ (eth : Eth) (erc20 : Erc20) where
  -- A transaction with a recipient, the contract, a value of 0, and the payload of a token transfer of
  -- less than 2 ^ 256 tokens to an address of 20 bytes is read off its
  -- payload, whatever the logs of its receipt are: one source, the sender, and one destination.
  pub parse_transfer-token :
      (t : eth.Transaction) (signer : eth.Signer) (address contract : List ℕ) (n : ℕ)
      (native : Text) (logs : List Log)
      → length address ≡ 20
      → n < 256 ^ 32
      → Carries eth t (erc20_payload address n) contract (pos 0)
      → parse_transfer eth erc20 (with_signer eth t signer) logs native
        ≡ ok (record {
          sources = token_endpoint eth (from eth (with_signer eth t signer)) contract n native ∷ [];
          destinations =
              token_endpoint eth (ensure_0x (eth.address_string address)) contract n native ∷ [];
        })
  unfolding parse_transfer multisend_kind hex_encode hex_digit eq_text
  parse_transfer-token t signer address contract n native logs size small carried =
      let named = to_string-some eth t contract carried.1 in
      let here : ltb 0 (length (eth.data_of t)) ≡ true = rw (carried.0) ground arith in
      let long : ltb (length (erc20_payload address n)) 4 ≡ false = ground arith in
      let is = erc20-is_transfer address n size small in
      let reads : address_at eth 4 (erc20_payload address n)
          ≡ ok (ensure_0x (eth.address_string address)) =
        address_at-left_pad eth address 4 transfer_id (padded_amount (pos n)) size refl in
      let value = erc20-amount address n size small in
      rw (parse_transfer, here, carried.0, long, is, reads, value, named) refl
