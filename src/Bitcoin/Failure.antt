-- ===== src/Bitcoin/Failure.antt =====
-- chain/bitcoin: the ways in which an operation fails. `panic` is a Go panic, which no caller here
-- recovers from; the others are returned errors.
pub data Failure : Type 0 where
  panic : Failure
  unsupported_asset : Failure
  wrong_input : Failure
  not_implemented : Failure
  undecodable_address : Failure
  checksum_mismatch : Failure
  unknown_address_type : Failure
  unknown_size : Failure
  unsupported_segwit : Failure
  unsupported_legacy : Failure
  bad_legacy_address : Failure
  invalid_version : Failure
  bad_bits : Failure
  no_script : Failure
  negative_value : Failure
  already_signed : Failure
  signature_count : Failure
  signature_length : Failure
  bad_sighash : Failure
