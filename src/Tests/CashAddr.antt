-- ===== src/Tests/CashAddr.antt =====
-- Tests of the cash address format.
use crosschain_enhanced_by_a.Prelude.{
  replicate, if◌then◌else◌, ◌==◌, inl, ok, ◌++◌, true, [], ◌∷◌, some, ◌≡◌, refl,
}
use crosschain_enhanced_by_a.Prelude.Text.{Text, codes}
use crosschain_enhanced_by_a.Bitcoin.CashAddr.{
  decode_cash_address, encode_bch_address, version_fits, poly_mod, poly_loop, poly_step, mix,
  encode_prefix, checksum_groups, address_prefix, encode_to_bch_string, verify_checksum,
  append_checksum,
}
use crosschain_enhanced_by_a.Bitcoin.CashAddr.RoundTrip.{Regroups, decode-encode_bch_address}
use crosschain_enhanced_by_a.Bitcoin.Codec.{Codec}
use crosschain_enhanced_by_a.Tests.Sample.{codec, btc_builder}
use crosschain_enhanced_by_a.Bitcoin.CashAddr.Checksum.{verify-append_checksum}

writes : encode_to_bch_string (0 ∷ 31 ∷ 16 ∷ []) ≡ some (codes "qls")
unfolding encode_to_bch_string
writes = refl

verify-append_checksum_example :
    verify_checksum (codes "bitcoincash") (append_checksum (codes "bitcoincash") (0 ∷ 31 ∷ 16 ∷ []))
    ≡ true
verify-append_checksum_example = verify-append_checksum (codes "bitcoincash") (0 ∷ 31 ∷ 16 ∷ [])

-- A codec that regroups the bits of 21 zero bytes.
abbrev zeros_codec : Codec
zeros_codec = record codec {
  convert_bits =
      λ bytes from to pad. if from == 8 then some (replicate 34 0) else some (replicate 21 0);
}

abbrev zeros_address : Text
zeros_address = replicate 34 b'q' ++ codes "fnhks603"

zeros_written :
    encode_bch_address zeros_codec 0 (replicate 20 0) btc_builder.params ≡ ok zeros_address
unfolding encode_bch_address version_fits append_checksum encode_prefix poly_mod poly_loop poly_step
    mix checksum_groups address_prefix encode_to_bch_string
zeros_written = refl

zeros_regroup : Regroups zeros_codec (0 ∷ replicate 20 0)
zeros_regroup symbols e = refl

decode-encode_bch_address_example :
    decode_cash_address zeros_codec zeros_address btc_builder.params ≡ ok (0 ∷ replicate 20 0)
decode-encode_bch_address_example =
    decode-encode_bch_address zeros_codec btc_builder.params 0 (replicate 20 0) zeros_address
      zeros_regroup (inl refl) refl zeros_written
