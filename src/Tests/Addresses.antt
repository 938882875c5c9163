-- ===== src/Tests/Addresses.antt =====
-- Tests of the addresses of a public key and of the switches over drivers.
use crosschain_enhanced_by_a.Prelude.{ℕ, true, false, List, [], ◌∷◌, some, ok, ◌≡◌, refl}
use crosschain_enhanced_by_a.Prelude.Text.{codes, eq_text, one_of}
use crosschain_enhanced_by_a.Bitcoin.Params.{get_params, network_of}
use crosschain_enhanced_by_a.Bitcoin.Address.{
  AddressBuilder, PossibleAddress, AddressType, Keys, new_address_builder, encoded,
  get_all_possible_addresses,
}
use crosschain_enhanced_by_a.Tests.Sample.{codec, doge_config, doge_builder}

abbrev keys : Keys codec
keys = record {
  hash160 = λ k. 1 ∷ k;
  hash160_of = λ a. a;
  new_address_pub_key = λ k p. some k;
  new_address_witness_pub_key_hash = λ h p. some h;
  encode_address = λ a. a;
}

abbrev doge_addresses : AddressBuilder
doge_addresses = record {
  params = doge_builder.params;
  native_asset = codes "DOGE";
  use_legacy = true;
  use_script_hash = false;
}

abbrev key : List ℕ
key = 2 ∷ 9 ∷ []

abbrev possible : List PossibleAddress
possible =
    record { address = key; address_type = AddressType.p2pkh }
    ∷ record { address = 1 ∷ key; address_type = AddressType.p2wpkh }
    ∷ []

built : new_address_builder doge_config (codes "DOGE") ≡ ok doge_addresses
unfolding new_address_builder get_params network_of one_of eq_text
built = refl

is_other : eq_text (codes "DOGE") (codes "BCH") ≡ false
unfolding eq_text
is_other = refl

all_found : get_all_possible_addresses codec keys doge_addresses key ≡ ok possible
unfolding get_all_possible_addresses encoded
all_found = refl
