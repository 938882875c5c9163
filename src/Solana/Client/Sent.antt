-- ===== src/Solana/Client/Sent.antt =====
-- chain/solana: what `FetchTxInfo` tells of a transfer that the builder made.
use crosschain_enhanced_by_a.Prelude.{
  ℕ, List, [], ◌++◌, Option, some, ok, ◌≡◌, refl, inl, inr, Bool-cases, ltb,
}
use crosschain_enhanced_by_a.Prelude.Int.{ℤ, pos}
use crosschain_enhanced_by_a.Prelude.Text.{Text, codes}
use crosschain_enhanced_by_a.Asset.Config.{AssetConfig}
use crosschain_enhanced_by_a.Bitcoin.Tx.{uint64}
use crosschain_enhanced_by_a.Solana.{TxInput, Sol}
use crosschain_enhanced_by_a.Solana.Tx.{Tx, parse_transfer, to_alt, amount, contract_address}
use crosschain_enhanced_by_a.Solana.Builder.{unsigned, new_native_transfer}
use crosschain_enhanced_by_a.Solana.Laws.{IsSol}
use crosschain_enhanced_by_a.Solana.ReadBack.{new_native_transfer-ReadsNative, ReadsNative}
use crosschain_enhanced_by_a.Solana.Client.{
  Account, Response, TxInfo, with_owner, described, in_block, fetch_tx_info,
}

module _ (sol : Sol) where
  -- The fields of a native transfer.
  abbrev pub Tells : Text → Text → Text → ℤ → ℕ → TxInfo sol → Type 0
  Tells tx_hash sender recipient value fee info =
      (info.tx_id ≡ tx_hash)
      × (info.from_address ≡ sender)
      × (info.to_address ≡ recipient)
      × (info.contract ≡ [])
      × (info.value ≡ pos (uint64 value))
      × (info.paid ≡ fee)

  Tells-in_block :
      (tx_hash sender recipient : Text) (value : ℤ) (fee : ℕ) (r : Response sol) (recent : Option ℕ)
      (info : TxInfo sol)
      → Tells tx_hash sender recipient value fee info
      → Tells tx_hash sender recipient value fee (in_block sol r recent info)
  unfolding in_block
  Tells-in_block tx_hash sender recipient value fee r recent info h =
      elim (Bool-cases (ltb 0 r.slot)) [ inl e ↦ rw (in_block, e) h | inr e ↦ rw (in_block, e) h ]

  described-Tells :
      (laws : IsSol sol) (tx_hash url sender recipient : Text) (value : ℤ) (fee : ℕ) (tx : Tx sol)
      → ReadsNative sol laws sender recipient value tx
      → (info : TxInfo sol) × (described sol tx_hash url fee tx ≡ ok info)
        × Tells tx_hash sender recipient value fee info
  unfolding described
  described-Tells laws tx_hash url sender recipient value fee tx (a, b, c, d, e) =
      (info, rw (described, a, b) refl, (refl, refl, refl, e, c, refl))
    where
      info : TxInfo sol
      info = record {
        tx_id = tx_hash;
        explorer_url = url;
        from_address = sender;
        to_address = recipient;
        to_alt_address = to_alt sol tx;
        contract = contract_address sol tx;
        value = amount sol tx;
        paid = fee;
        block_index = pos 0;
        block_time = pos 0;
        confirmations = pos 0;
      }

  -- With the laws of the library, a native transfer that the builder made is told by `FetchTxInfo` with its
  -- sender, its recipient, the low 64 bits of its amount, and its fee, where the hash decodes to a
  -- signature and the node answers to it with the transaction and the fee.
  pub fetch_tx_info-Tells :
      (laws : IsSol sol) (sender recipient : Text) (value : ℤ) (input : TxInput)
      (t : sol.Transaction) (signature : List ℕ) (get_transaction : List ℕ → Option (Response sol))
      (r : Response sol) (fee : ℕ) (recent : Option ℕ) (account_info : List ℕ → Option Account)
      (chain : AssetConfig) (tx_hash : Text)
      → new_native_transfer sol sender recipient value input ≡ ok (unsigned sol t)
      → sol.signature_of_base58 tx_hash ≡ some signature
      → get_transaction signature ≡ some r
      → r.decoded ≡ some (some t)
      → r.fee ≡ some fee
      → (info : TxInfo sol) × (fetch_tx_info sol get_transaction recent account_info chain tx_hash
          ≡ ok info)
        × Tells tx_hash sender recipient value fee info
  unfolding fetch_tx_info with_owner
  fetch_tx_info-Tells laws sender recipient value input t signature get_transaction r fee recent
        account_info chain tx_hash built signed answered decoded paid =
      let reads =
        new_native_transfer-ReadsNative sol laws sender recipient value input (unsigned sol t)
          built in
      let (info, described_as, tells) =
        described-Tells laws tx_hash (explorer chain) sender recipient value fee
          (parse_transfer sol (unsigned sol t)) reads in
      (
        in_block sol r recent info,
        rw (fetch_tx_info, signed, answered, decoded, paid, reads.3, described_as) refl,
        Tells-in_block tx_hash sender recipient value fee r recent info tells,
      )
    where
      explorer : AssetConfig → Text
      explorer chain =
          chain.explorer_url ++ codes "/tx/" ++ tx_hash ++ codes "?cluster=" ++ chain.net
