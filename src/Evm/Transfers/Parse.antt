-- ===== src/Evm/Transfers/Parse.antt =====
-- chain/evm/tx.go: `ParseMultisendTransferTx` on the payloads of a multi-send, and on any payload.
use crosschain_enhanced_by_a.Prelude.{
  ℕ, suc, ◌+◌, ◌*◌, ◌^◌, ◌<◌, ◌-◌, ◌⊎◌, inl, inr, ◌≢◌, true, false, List, [], ◌∷◌, ◌++◌, map, some,
  ok, err, ◌≡◌, refl, sym, ap, ap₂, subst, ◌∙◌, arith, append_assoc, append-nil, length,
  length-append, All, ltb, ◌==◌, Bool-cases, ==_iff, false≢true, take,
}
use crosschain_enhanced_by_a.Prelude.Int.{pos, ◌+ℤ◌, ◌*ℤ◌, pos_+ℤ, pos_*ℤ}
use crosschain_enhanced_by_a.Prelude.Bytes.{big_endian, hex_encode}
use crosschain_enhanced_by_a.Bitcoin.Tx.{int64, to_signed}
use crosschain_enhanced_by_a.Evm.{Eth, Failure}
use crosschain_enhanced_by_a.Evm.Tx.{Endpoint, ParsedTxInfo, slice_of}
use crosschain_enhanced_by_a.Evm.Tx.Batch.{
  Multisend, eth_multisend, erc20_multisend, num_params, multisend_kind, has_entries,
  multisend_entries, parse_multisend, parse_multisend_transfer_tx,
}
use crosschain_enhanced_by_a.Evm.Builder.{padded_amount}
use crosschain_enhanced_by_a.Evm.Builder.Words.{
  length-padded_amount, slice_of-part, word-padded_amount,
}
use crosschain_enhanced_by_a.Evm.Builder.ReadBack.{with_signer, contract_address-recipient}
use crosschain_enhanced_by_a.Evm.Transfers.{
  Payout, IsPayout, entries_bytes, multisend_id, multisend_payload, endpoint_of,
  length-entries_bytes,
}
use crosschain_enhanced_by_a.Evm.Transfers.Entries.{
  multisend_entries-entries_bytes, multisend_entries-total, multisend_entries-past_end,
}

int64_small : (n : ℕ) → n < 2 ^ 63 → int64 (pos n) ≡ pos n
unfolding int64 to_signed
int64_small n h = ground arith

entries_fit : (kind : Multisend) (n : ℕ) → n < 2 ^ 56 → 100 + num_params kind * 32 * n < 2 ^ 63
entries_fit eth_multisend n h = omega (arith, h)
entries_fit erc20_multisend n h = omega (arith, h)

count_bytes :
    (kind : Multisend) (n : ℕ)
    → n < 2 ^ 56
    → int64 (pos 100 +ℤ pos (num_params kind * 32) *ℤ pos n) ≡ pos (100 + num_params kind * 32 * n)
count_bytes kind n h =
    rw (pos_*ℤ (num_params kind * 32) n, pos_+ℤ 100 (num_params kind * 32 * n))
      (int64_small (100 + num_params kind * 32 * n) (entries_fit kind n h))

-- The length test, where nothing wraps around.
has_entries-exact :
    (size n : ℕ) (kind : Multisend)
    → n < 2 ^ 56
    → has_entries size kind (pos n) ≡ (size == 100 + num_params kind * 32 * n)
unfolding has_entries
has_entries-exact size n kind h = rw (has_entries, count_bytes kind n h) refl

wraps_around : has_entries 100 eth_multisend (pos (2 ^ 58)) ≡ true
unfolding has_entries int64 ◌+ℤ◌ ◌*ℤ◌ to_signed
wraps_around = refl

size_matches : (size n : ℕ) → size ≡ n → (size == n) ≡ true
size_matches size n h = ground arith

is_long : (size m : ℕ) → size ≡ 100 + m → ltb 0 size ≡ true
is_long size m h = ground arith

module _ (eth : Eth) (t : eth.Transaction) (signer : eth.Signer) (contract : List ℕ)
    (recipient : eth.to_of t ≡ some contract) where
  -- What is reported besides the entries: the contract as the one source.
  abbrev pub multisend_info : List Endpoint → ParsedTxInfo
  multisend_info entries = record {
    sources =
        record {
          address = eth.address_string contract;
          contract_address = [];
          amount = pos 0;
          native_asset = [];
          asset = [];
        }
        ∷ [];
    destinations = entries;
  }

  parse_multisend-ok :
      (kind : Multisend) (word : List ℕ) (n : ℕ) (entries : List Endpoint)
      → slice_of 68 100 (eth.data_of t) ≡ ok word
      → big_endian 0 word ≡ n
      → n < 2 ^ 56
      → length (eth.data_of t) ≡ 100 + num_params kind * 32 * n
      → multisend_entries eth kind n 100 (eth.data_of t) ≡ ok entries
      → parse_multisend eth (with_signer eth t signer) kind (eth.data_of t)
        ≡ ok (multisend_info entries)
  unfolding parse_multisend
  parse_multisend-ok kind word n entries read value small size listed =
      let count : int64 (pos n) ≡ pos n = int64_small n (omega (arith, small)) in
      let fits : has_entries (length (eth.data_of t)) kind (pos n) ≡ true =
        has_entries-exact (length (eth.data_of t)) n kind small ∙ size_matches _ _ size in
      let here : ltb 0 (length (eth.data_of t)) ≡ true = is_long _ _ size in
      let named = contract_address-recipient eth t signer contract here recipient in
      rw (parse_multisend, read, value, count, fits, listed, named) refl

  kind-multisend_id :
      (kind : Multisend) (rest : List ℕ)
      → (multisend_kind (hex_encode (take 4 (multisend_id kind ++ rest))) ≡ some kind)
        × (ltb (length (multisend_id kind ++ rest)) 4 ≡ false)
  unfolding multisend_kind hex_encode
  kind-multisend_id eth_multisend rest = (refl, ground arith)
  kind-multisend_id erc20_multisend rest = (refl, ground arith)

  length-multisend_id : (kind : Multisend) → length (multisend_id kind) ≡ 4
  length-multisend_id eth_multisend = refl
  length-multisend_id erc20_multisend = refl

  parse-payload :
      (kind : Multisend) (head : List ℕ) (ps : List Payout)
      → eth.data_of t ≡ multisend_payload kind head ps
      → length head ≡ 64
      → length ps < 2 ^ 56
      → All IsPayout ps
      → parse_multisend eth (with_signer eth t signer) kind (eth.data_of t)
        ≡ ok (multisend_info (map (endpoint_of eth kind) ps))
  parse-payload kind head ps payload size small each =
      let word = padded_amount (pos (length ps)) in
      let es = entries_bytes kind ps in
      let start = multisend_id kind ++ head in
      let short : length ps < 256 ^ 32 = omega (arith, small) in
      let filled : length start ≡ 68 =
        omega (arith, size, length-append (multisend_id kind) head, length-multisend_id kind) in
      let word_at : start ++ (word ++ es) ≡ eth.data_of t =
        append_assoc (multisend_id kind) head (word ++ es) ∙ sym payload in
      let entries_at : start ++ word ++ es ≡ eth.data_of t = append_assoc start word es ∙ word_at in
      let read =
        subst (λ p. slice_of 68 100 p ≡ ok word) word_at
          (slice_of-part 68 100 start word es filled
            (omega (arith, filled, length-padded_amount (length ps) short))) in
      let full : length (start ++ word) ≡ 100 =
        omega (arith, filled, length-append start word, length-padded_amount (length ps) short) in
      let listed =
        subst
          (λ p. multisend_entries eth kind (length ps) 100 p ≡ ok (map (endpoint_of eth kind) ps))
          entries_at (multisend_entries-entries_bytes eth kind ps 100 (start ++ word) each full) in
      let total =
        subst (λ p. length p ≡ 100 + num_params kind * 32 * length ps) entries_at
          (length-append (start ++ word) es
            ∙ ap₂ (λ (a b : ℕ). a + b) full (length-entries_bytes kind ps each)) in
      parse_multisend-ok kind word (length ps) (map (endpoint_of eth kind) ps) read
        (word-padded_amount (length ps)) small total listed

  -- A multi-send of either kind, with a recipient, of fewer than 2 ^ 56 entries whose addresses are of 20 bytes and whose
  -- amounts are below 2 ^ 256, is parsed as exactly its entries, in their order, and its contract as
  -- the one source, whatever the two first parameters are.
  pub parse_multisend-payload :
      (kind : Multisend) (head : List ℕ) (ps : List Payout)
      → eth.data_of t ≡ multisend_payload kind head ps
      → length head ≡ 64
      → length ps < 2 ^ 56
      → All IsPayout ps
      → parse_multisend_transfer_tx eth (with_signer eth t signer)
        ≡ ok (multisend_info (map (endpoint_of eth kind) ps))
  unfolding parse_multisend_transfer_tx
  parse_multisend-payload kind head ps payload size small each =
      let (is, long) =
        kind-multisend_id kind
          (head ++ (padded_amount (pos (length ps)) ++ entries_bytes kind ps)) in
      rw (parse_multisend_transfer_tx, payload, long, is)
        (parse-payload kind head ps payload size small each)

  -- For a transaction with a recipient whose payload has a count below 2 ^ 56, the parser does not panic:
  -- it refuses a payload whose
  -- length is not that of the count, and otherwise reports as many entries as the count says.
  pub parse_multisend-total :
      (kind : Multisend) (word : List ℕ)
      → slice_of 68 100 (eth.data_of t) ≡ ok word
      → big_endian 0 word < 2 ^ 56
      → ((length (eth.data_of t) ≢ 100 + num_params kind * 32 * big_endian 0 word)
          × (parse_multisend eth (with_signer eth t signer) kind (eth.data_of t)
              ≡ err Failure.multisend_length))
        ⊎ ((entries : List Endpoint) × (length entries ≡ big_endian 0 word)
            × (parse_multisend eth (with_signer eth t signer) kind (eth.data_of t)
                ≡ ok (multisend_info entries)))
  unfolding parse_multisend
  parse_multisend-total kind word read small =
      elim (Bool-cases (length (eth.data_of t) == 100 + num_params kind * 32 * big_endian 0 word)) [
        | inl same ↦
            let size =
              (==_iff (length (eth.data_of t)) (100 + num_params kind * 32 * big_endian 0 word)).0
                same in
            let (entries, listed, count) =
              multisend_entries-total eth kind (big_endian 0 word) 100 (eth.data_of t)
                (omega (arith, size)) in
            inr (
              entries,
              count,
              parse_multisend-ok kind word (big_endian 0 word) entries read refl small size listed,
            )
        | inr differs ↦
            let count : int64 (pos (big_endian 0 word)) ≡ pos (big_endian 0 word) =
              int64_small (big_endian 0 word) (omega (arith, small)) in
            let fails : has_entries (length (eth.data_of t)) kind (pos (big_endian 0 word))
                ≡ false =
              has_entries-exact (length (eth.data_of t)) (big_endian 0 word) kind small ∙ differs in
            inl (
              λ size. false≢true (sym differs ∙ size_matches _ _ size),
              rw (parse_multisend, read, count, fails) refl,
            )
      ]

  panics :
      (word : List ℕ) (n : ℕ)
      → slice_of 68 100 (eth.data_of t) ≡ ok word
      → big_endian 0 word ≡ suc n
      → int64 (pos (suc n)) ≡ pos (suc n)
      → has_entries 100 eth_multisend (pos (suc n)) ≡ true
      → length (eth.data_of t) ≡ 100
      → parse_multisend eth (with_signer eth t signer) eth_multisend (eth.data_of t)
        ≡ err Failure.panic
  unfolding parse_multisend
  panics word n read value count fits size =
      let past = multisend_entries-past_end eth n (eth.data_of t) size in
      rw (parse_multisend, read, value, count, size, fits, past) refl

  -- A payload of 100 bytes whose count of ETH entries is 2 ^ 58 passes the length test, since the
  -- product wraps around to 0, and the read of the first entry panics.
  pub parse_multisend-overflow :
      (head : List ℕ)
      → eth.data_of t ≡ multisend_id eth_multisend ++ (head ++ padded_amount (pos (2 ^ 58)))
      → length head ≡ 64
      → parse_multisend_transfer_tx eth (with_signer eth t signer) ≡ err Failure.panic
  unfolding parse_multisend_transfer_tx
  parse_multisend-overflow head payload size =
      let word = padded_amount (pos (2 ^ 58)) in
      let start = multisend_id eth_multisend ++ head in
      let filled : length start ≡ 68 =
        omega (arith, size, length-append (multisend_id eth_multisend) head) in
      let word_size = length-padded_amount (2 ^ 58) (omega arith) in
      let split : start ++ (word ++ []) ≡ eth.data_of t =
        append_assoc (multisend_id eth_multisend) head (word ++ [])
        ∙ ap (λ w. multisend_id eth_multisend ++ (head ++ w)) (append-nil word)
        ∙ sym payload in
      let read =
        subst (λ p. slice_of 68 100 p ≡ ok word) split
          (slice_of-part 68 100 start word [] filled (omega (arith, filled, word_size))) in
      let total =
        subst (λ p. length p ≡ 100) split
          (length-append start (word ++ [])
            ∙ ap₂ (λ (a b : ℕ). a + b) filled (ap length (append-nil word) ∙ word_size)) in
      let long = (kind-multisend_id eth_multisend (head ++ word)).1 in
      rw (parse_multisend_transfer_tx, payload, long)
        (panics word (2 ^ 58 - 1) read (word-padded_amount (2 ^ 58))
          (int64_small (2 ^ 58) (omega arith)) wraps_around total)
