-- ===== src/Evm/Builder/Words.antt =====
-- chain/evm/builder.go, chain/evm/tx.go: the words of a payload, written and read back.
use crosschain_enhanced_by_a.Prelude.{
  ℕ, ◌+◌, ◌-◌, ◌^◌, ◌<◌, List, ◌++◌, ok, ◌≡◌, refl, sym, ap, ◌∙◌, arith, append_assoc, length,
  length-append,
}
use crosschain_enhanced_by_a.Prelude.Int.{pos}
use crosschain_enhanced_by_a.Prelude.Bytes.{
  big_endian, big_bytes, left_pad, zeros, slice-append, length-zeros, length-left_pad,
  length-big_bytes, big_endian-left_pad, big_endian-big_bytes,
}
use crosschain_enhanced_by_a.Evm.{Eth}
use crosschain_enhanced_by_a.Evm.Tx.{slice_of, amount_at, address_at, ensure_0x}
use crosschain_enhanced_by_a.Evm.Builder.{padded_amount}

pub length-padded_amount : (n : ℕ) → n < 256 ^ 32 → length (padded_amount (pos n)) ≡ 32
unfolding padded_amount
length-padded_amount n h = length-left_pad 32 (big_bytes (pos n)) (length-big_bytes 32 n h)

pub word-padded_amount : (n : ℕ) → big_endian 0 (padded_amount (pos n)) ≡ n
unfolding padded_amount
word-padded_amount n = big_endian-left_pad 32 (big_bytes (pos n)) ∙ big_endian-big_bytes n

pub slice_of-part :
    (from to : ℕ) (before part rest : List ℕ)
    → length before ≡ from
    → length before + length part ≡ to
    → slice_of from to (before ++ (part ++ rest)) ≡ ok part
unfolding slice_of
slice_of-part from to before part rest f t =
    rw (← f, ← t, slice_of, slice-append before part rest) refl

pub amount_at-padded_amount :
    (n : ℕ) (offset : ℕ) (before rest : List ℕ)
    → n < 256 ^ 32
    → length before ≡ offset
    → amount_at offset (before ++ (padded_amount (pos n) ++ rest)) ≡ ok (pos n)
unfolding amount_at
amount_at-padded_amount n offset before rest small f =
    let reads =
      slice_of-part offset (offset + 32) before (padded_amount (pos n)) rest f
        (omega (arith, f, length-padded_amount n small)) in
    rw (reads, word-padded_amount n) refl

pub address_at-left_pad :
    (eth : Eth) (address : List ℕ) (offset : ℕ) (before rest : List ℕ)
    → length address ≡ 20
    → length before ≡ offset
    → address_at eth offset (before ++ (left_pad 32 address ++ rest))
      ≡ ok (ensure_0x (eth.address_string address))
unfolding address_at left_pad
address_at-left_pad eth address offset before rest size f =
    let pad = zeros (32 - length address) in
    let split : before ++ (pad ++ address ++ rest) ≡ before ++ pad ++ (address ++ rest) =
      ap (λ l. before ++ l) (append_assoc pad address rest)
      ∙ sym (append_assoc before pad (address ++ rest)) in
    let filled : length (before ++ pad) ≡ offset + 12 =
      omega (arith, f, size, length-append before pad, length-zeros (32 - length address)) in
    let reads =
      slice_of-part (offset + 12) (offset + 32) (before ++ pad) address rest filled
        (omega (arith, filled, size)) in
    rw (split, reads) refl
