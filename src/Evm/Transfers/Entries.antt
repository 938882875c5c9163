-- ===== src/Evm/Transfers/Entries.antt =====
-- chain/evm/tx.go: the loop of `ParseMultisendTransferTx` reads back the entries that were written.
use crosschain_enhanced_by_a.Prelude.{
  false, ℕ, zero, suc, ◌+◌, ◌*◌, ◌≤◌, List, [], ◌∷◌, ◌++◌, map, ok, err, ◌≡◌, refl, sym, ap, subst,
  ◌∙◌, arith, append_assoc, length, length-append, All, leb, le→leb, Succeeds, >>=-Succeeds, take,
  drop, ◌-◌,
}
use crosschain_enhanced_by_a.Prelude.Int.{pos}
use crosschain_enhanced_by_a.Prelude.Bytes.{left_pad, length-left_pad, slice}
use crosschain_enhanced_by_a.Evm.{Eth, Failure}
use crosschain_enhanced_by_a.Evm.Tx.{Endpoint, ensure_0x, slice_of, address_at, amount_at}
use crosschain_enhanced_by_a.Evm.Tx.Batch.{
  Multisend, eth_multisend, erc20_multisend, num_params, multisend_entry, multisend_entries,
}
use crosschain_enhanced_by_a.Evm.Builder.{padded_amount}
use crosschain_enhanced_by_a.Evm.Builder.Words.{amount_at-padded_amount, address_at-left_pad}
use crosschain_enhanced_by_a.Evm.Transfers.{
  Payout, IsPayout, entry_bytes, entries_bytes, endpoint_of, length-entry_bytes,
}

module _ (eth : Eth) where
  -- One word read, with what stands behind the words after it.
  multisend_entry-entry_bytes :
      (kind : Multisend) (p : Payout) (offset : ℕ) (before rest : List ℕ)
      → IsPayout p
      → length before ≡ offset
      → multisend_entry eth kind offset (before ++ (entry_bytes kind p ++ rest))
        ≡ ok (endpoint_of eth kind p)
  unfolding multisend_entry
  multisend_entry-entry_bytes eth_multisend p offset before rest (_, r, v) f =
      let to = left_pad 32 p.recipient in
      let value = padded_amount (pos p.value) in
      let split : before ++ (to ++ value ++ rest) ≡ before ++ (to ++ (value ++ rest)) =
        ap (λ l. before ++ l) (append_assoc to value rest) in
      let second : before ++ (to ++ value ++ rest) ≡ before ++ to ++ (value ++ rest) =
        split ∙ sym (append_assoc before to (value ++ rest)) in
      let filled : length (before ++ to) ≡ offset + 32 =
        omega
          (arith, f, length-append before to, length-left_pad 32 p.recipient (omega (arith, r))) in
      let reads =
        subst (λ l. address_at eth offset l ≡ ok (ensure_0x (eth.address_string p.recipient)))
          (sym split) (address_at-left_pad eth p.recipient offset before (value ++ rest) r f) in
      let amounts =
        subst (λ l. amount_at (offset + 32) l ≡ ok (pos p.value)) (sym second)
          (amount_at-padded_amount p.value (offset + 32) (before ++ to) rest v filled) in
      rw (reads, amounts) refl
  multisend_entry-entry_bytes erc20_multisend p offset before rest (c, r, v) f =
      let from = left_pad 32 p.contract in
      let to = left_pad 32 p.recipient in
      let value = padded_amount (pos p.value) in
      let split : before ++ (from ++ (to ++ value) ++ rest)
          ≡ before ++ (from ++ (to ++ (value ++ rest))) =
        ap (λ l. before ++ l)
          (append_assoc from (to ++ value) rest
            ∙ ap (λ l. from ++ l) (append_assoc to value rest)) in
      let second : before ++ (from ++ (to ++ value) ++ rest)
          ≡ before ++ from ++ (to ++ (value ++ rest)) =
        split ∙ sym (append_assoc before from (to ++ (value ++ rest))) in
      let third : before ++ (from ++ (to ++ value) ++ rest)
          ≡ before ++ from ++ to ++ (value ++ rest) =
        second ∙ sym (append_assoc (before ++ from) to (value ++ rest)) in
      let filled : length (before ++ from) ≡ offset + 32 =
        omega
          (arith, f, length-append before from, length-left_pad 32 p.contract (omega (arith, c))) in
      let full : length (before ++ from ++ to) ≡ offset + 64 = omega (
        arith,
        filled,
        length-append (before ++ from) to,
        length-left_pad 32 p.recipient (omega (arith, r)),
      ) in
      let contracts =
        subst (λ l. address_at eth offset l ≡ ok (ensure_0x (eth.address_string p.contract)))
          (sym split)
          (address_at-left_pad eth p.contract offset before (to ++ (value ++ rest)) c f) in
      let reads =
        subst
          (λ l. address_at eth (offset + 32) l ≡ ok (ensure_0x (eth.address_string p.recipient)))
          (sym second)
          (address_at-left_pad eth p.recipient (offset + 32) (before ++ from) (value ++ rest) r
            filled) in
      let amounts =
        subst (λ l. amount_at (offset + 64) l ≡ ok (pos p.value)) (sym third)
          (amount_at-padded_amount p.value (offset + 64) (before ++ from ++ to) rest v full) in
      rw (contracts, reads, amounts) refl

  entries_step :
      (kind : Multisend) (n offset : ℕ) (payload : List ℕ) (e : Endpoint) (es : List Endpoint)
      → multisend_entry eth kind offset payload ≡ ok e
      → multisend_entries eth kind n (offset + num_params kind * 32) payload ≡ ok es
      → multisend_entries eth kind (suc n) offset payload ≡ ok (e ∷ es)
  unfolding multisend_entries
  entries_step kind n offset payload e es here rest = rw (multisend_entries, here, rest) refl

  pub multisend_entries-entries_bytes :
      (kind : Multisend) (ps : List Payout) (offset : ℕ) (before : List ℕ)
      → All IsPayout ps
      → length before ≡ offset
      → multisend_entries eth kind (length ps) offset (before ++ entries_bytes kind ps)
        ≡ ok (map (endpoint_of eth kind) ps)
  unfolding multisend_entries
  multisend_entries-entries_bytes kind [] offset before h f = refl
  multisend_entries-entries_bytes kind (p ∷ ps) offset before h f =
      let one = entry_bytes kind p in
      let here = multisend_entry-entry_bytes kind p offset before (entries_bytes kind ps) h.0 f in
      let filled : length (before ++ one) ≡ offset + num_params kind * 32 =
        omega (arith, f, length-append before one, length-entry_bytes kind p h.0) in
      let rest =
        subst
          (λ l.
            multisend_entries eth kind (length ps) (offset + num_params kind * 32) l
            ≡ ok (map (endpoint_of eth kind) ps))
          (append_assoc before one (entries_bytes kind ps))
          (multisend_entries-entries_bytes kind ps (offset + num_params kind * 32) (before ++ one)
            h.1 filled) in
      entries_step kind (length ps) offset (before ++ entries_bytes kind (p ∷ ps)) _ _ here rest

  -- Entries that are within the payload are all read.
  pub slice_of-Succeeds :
      (from to : ℕ) (payload : List ℕ) → to ≤ length payload → Succeeds (slice_of from to payload)
  unfolding slice_of slice
  slice_of-Succeeds from to payload h =
      (take (to - from) (drop from payload), rw (slice_of, le→leb to (length payload) h) refl)

  address_at-Succeeds :
      (offset : ℕ) (payload : List ℕ)
      → offset + 32 ≤ length payload
      → Succeeds (address_at eth offset payload)
  unfolding address_at
  address_at-Succeeds offset payload h =
      >>=-Succeeds (slice_of (offset + 12) (offset + 32) payload) _
        (slice_of-Succeeds (offset + 12) (offset + 32) payload h) (λ bytes. (_, refl))

  amount_at-Succeeds :
      (offset : ℕ) (payload : List ℕ)
      → offset + 32 ≤ length payload
      → Succeeds (amount_at offset payload)
  unfolding amount_at
  amount_at-Succeeds offset payload h =
      >>=-Succeeds (slice_of offset (offset + 32) payload) _
        (slice_of-Succeeds offset (offset + 32) payload h) (λ bytes. (_, refl))

  multisend_entry-Succeeds :
      (kind : Multisend) (offset : ℕ) (payload : List ℕ)
      → offset + num_params kind * 32 ≤ length payload
      → Succeeds (multisend_entry eth kind offset payload)
  unfolding multisend_entry
  multisend_entry-Succeeds eth_multisend offset payload h =
      >>=-Succeeds (address_at eth offset payload) _
        (address_at-Succeeds offset payload (omega (arith, h)))
        (λ to.
          >>=-Succeeds (amount_at (offset + 32) payload) _
            (amount_at-Succeeds (offset + 32) payload (omega (arith, h))) (λ amount. (_, refl)))
  multisend_entry-Succeeds erc20_multisend offset payload h =
      >>=-Succeeds (address_at eth offset payload) _
        (address_at-Succeeds offset payload (omega (arith, h)))
        (λ contract.
          >>=-Succeeds (address_at eth (offset + 32) payload) _
            (address_at-Succeeds (offset + 32) payload (omega (arith, h)))
            (λ to.
              >>=-Succeeds (amount_at (offset + 64) payload) _
                (amount_at-Succeeds (offset + 64) payload (omega (arith, h)))
                (λ amount. (_, refl))))

  pub multisend_entries-total :
      (kind : Multisend) (n offset : ℕ) (payload : List ℕ)
      → offset + num_params kind * 32 * n ≤ length payload
      → (es : List Endpoint) × (multisend_entries eth kind n offset payload ≡ ok es)
        × (length es ≡ n)
  unfolding multisend_entries
  multisend_entries-total kind zero offset payload h = ([], refl, refl)
  multisend_entries-total kind (suc n) offset payload h =
      let (e, here) = multisend_entry-Succeeds kind offset payload (omega (arith, h)) in
      let (es, rest, size) =
        multisend_entries-total kind n (offset + num_params kind * 32) payload (omega (arith, h)) in
      (e ∷ es, entries_step kind n offset payload e es here rest, ap suc size)

  -- An entry that starts at the end of the payload.
  pub multisend_entries-past_end :
      (n : ℕ) (payload : List ℕ)
      → length payload ≡ 100
      → multisend_entries eth eth_multisend (suc n) 100 payload ≡ err Failure.panic
  unfolding multisend_entries multisend_entry address_at slice_of slice
  multisend_entries-past_end n payload size =
      let past : leb 132 (length payload) ≡ false = ground (arith, size) in
      rw (multisend_entries, past) refl
