-- ===== src/Bitcoin/Address/Possible.antt =====
-- chain/bitcoin/address.go: the address of a key is the first of its possible addresses.
use crosschain_enhanced_by_a.Prelude.{
  ℕ, true, false, List, [], ◌∷◌, Option, none, some, ok, >>=-eq-ok, ok_injective, ◌≡◌, refl, sym,
  ap, arith, length, ◌==◌,
}
use crosschain_enhanced_by_a.Prelude.Text.{Text, codes, eq_text}
use crosschain_enhanced_by_a.Asset.Config.{AssetConfig}
use crosschain_enhanced_by_a.Bitcoin.Codec.{Codec}
use crosschain_enhanced_by_a.Bitcoin.Address.{
  AddressBuilder, PossibleAddress, Keys, new_address_builder, encoded, padded_key,
  get_address_from_public_key, get_all_possible_addresses,
}

-- The address of the first entry.
abbrev pub first_address : List PossibleAddress → Option Text
first_address [] = none
first_address (p ∷ ps) = some p.address

new_address_builder-fields :
    (cfg : AssetConfig) (native : Text) {ab : AddressBuilder}
    → new_address_builder cfg native ≡ ok ab
    → (ab.native_asset ≡ native) × (ab.use_legacy ≡ true)
unfolding new_address_builder
new_address_builder-fields cfg native e = ground arith

module _ (lib : Codec) (keys : Keys lib) where
  -- With the builder that `NewAddressBuilder` makes for an asset other than Bitcoin Cash, and a key
  -- that is not of 32 bytes, the address is the first of the possible addresses, where these are
  -- found.
  pub get_address-possible :
      (cfg : AssetConfig) (native : Text) {ab : AddressBuilder} (key : List ℕ)
      {all : List PossibleAddress}
      → new_address_builder cfg native ≡ ok ab
      → eq_text native (codes "BCH") ≡ false
      → (length key == 32) ≡ false
      → get_all_possible_addresses lib keys ab key ≡ ok all
      → (a : Text) × (first_address all ≡ some a)
        × (get_address_from_public_key lib keys ab key ≡ ok a)
  unfolding get_address_from_public_key get_all_possible_addresses padded_key
  get_address-possible cfg native {ab} key built plain size found =
      let fields = new_address_builder-fields cfg native built in
      let (a, first, rest) =
        >>=-eq-ok (encoded lib keys (keys.new_address_pub_key key ab.params)) _ found in
      let (w, second, all_is) =
        >>=-eq-ok
          (encoded lib keys (keys.new_address_witness_pub_key_hash (keys.hash160 key) ab.params)) _
          rest in
      (a, ap first_address (sym (ok_injective all_is)), rw (fields.0, plain, fields.1, size) first)

  -- A key of 32 bytes that is not used for Bitcoin Cash has the address of the key of 33 bytes with
  -- the byte 2 in front.
  pub get_address-taproot :
      (ab : AddressBuilder) (key : List ℕ)
      → eq_text ab.native_asset (codes "BCH") ≡ false
      → length key ≡ 32
      → get_address_from_public_key lib keys ab key
        ≡ get_address_from_public_key lib keys ab (2 ∷ key)
  unfolding get_address_from_public_key padded_key
  get_address-taproot ab key plain size = rw (plain, size) refl
