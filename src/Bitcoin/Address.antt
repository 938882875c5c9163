-- ===== src/Bitcoin/Address.antt =====
-- chain/bitcoin/address.go: the addresses of a public key, `NewAddressBuilder`,
-- `GetAddressFromPublicKey` and `GetAllPossibleAddressesFromPublicKey`.
pub mod Possible
use crosschain_enhanced_by_a.Prelude.{
  ℕ, Bool, true, false, List, [], ◌∷◌, ◌++◌, Option, none, some, Result, ok, err, ◌>>=◌,
  if◌then◌else◌, length, ◌==◌,
}
use crosschain_enhanced_by_a.Prelude.Text.{Text, codes, eq_text}
use crosschain_enhanced_by_a.Asset.Config.{AssetConfig}
use crosschain_enhanced_by_a.Bitcoin.Failure.{Failure}
use crosschain_enhanced_by_a.Bitcoin.Params.{Params, get_params}
use crosschain_enhanced_by_a.Bitcoin.Codec.{Codec}
use crosschain_enhanced_by_a.Bitcoin.CashAddr.{address_prefix, encode_bch_address}

-- `AddressType` of address.go, as far as it is used here.
pub data AddressType : Type 0 where
  p2pkh p2wpkh : AddressType

-- `PossibleAddress`
pub record PossibleAddress : Type 0 where
  pub address : Text
  pub address_type : AddressType

-- `AddressBuilder`, with the native asset of its item.
pub record AddressBuilder : Type 0 where
  pub params : Params
  pub native_asset : Text
  pub use_legacy : Bool
  pub use_script_hash : Bool

-- `NewAddressBuilder`, of the config of an item and the name of its native asset.
unfoldable pub new_address_builder : AssetConfig → Text → Result Failure AddressBuilder
unfolding get_params
new_address_builder cfg native = do
  params ← get_params cfg
  ok (record { params = params; native_asset = native; use_legacy = true; use_script_hash = false })

-- What the functions call of btcutil beyond `Codec`: `hash160_of` is the method `Hash160` of the
-- address of a public key's hash.
pub record Keys (lib : Codec) : Type 0 where
  pub hash160 : List ℕ → List ℕ
  pub hash160_of : lib.Addr → List ℕ
  pub new_address_pub_key : List ℕ → Params → Option lib.Addr
  pub new_address_witness_pub_key_hash : List ℕ → Params → Option lib.Addr
  pub encode_address : lib.Addr → Text

module _ (lib : Codec) (keys : Keys lib) where
  -- An address from btcutil, or its error.
  unfoldable pub encoded : Option lib.Addr → Result Failure Text
  encoded none = err Failure.undecodable_address
  encoded (some a) = ok (keys.encode_address a)

  -- The case of Bitcoin Cash of `GetAddressFromPublicKey`, with `NewBchAddressPubKey`.
  unfoldable pub bch_address : List ℕ → Params → Result Failure Text
  unfolding address_prefix encode_bch_address
  bch_address key params = elim (lib.new_pub_key_hash (keys.hash160 key) params) [
    | none ↦ err Failure.undecodable_address
    | some a ↦ elim (address_prefix params) [
      | none ↦ err Failure.panic
      | some prefix ↦ encode_bch_address lib 0 (keys.hash160_of a) params >>= λ addr.
          ok (prefix ++ (codes ":" ++ addr))
    ]
  ]

  -- The key with the byte 2 in front, if it has 32 bytes.
  unfoldable pub padded_key : List ℕ → List ℕ
  padded_key key = if length key == 32 then 2 ∷ key else key

  -- `GetAddressFromPublicKey`
  unfoldable pub get_address_from_public_key : AddressBuilder → List ℕ → Result Failure Text
  unfolding encoded bch_address padded_key
  get_address_from_public_key ab bytes =
      let key = padded_key bytes in
      if eq_text ab.native_asset (codes "BCH")
      then bch_address bytes ab.params
      else if ab.use_legacy
      then encoded (keys.new_address_pub_key key ab.params)
      else if ab.use_script_hash
      then encoded (lib.new_script_hash (keys.hash160 key) ab.params)
      else encoded (keys.new_address_witness_pub_key_hash (keys.hash160 key) ab.params)

  -- `GetAllPossibleAddressesFromPublicKey`
  unfoldable pub get_all_possible_addresses :
      AddressBuilder → List ℕ → Result Failure (List PossibleAddress)
  unfolding encoded
  get_all_possible_addresses ab key = encoded (keys.new_address_pub_key key ab.params) >>= λ plain.
      encoded (keys.new_address_witness_pub_key_hash (keys.hash160 key) ab.params) >>= λ witness.
      ok (
        record { address = plain; address_type = AddressType.p2pkh }
        ∷ record { address = witness; address_type = AddressType.p2wpkh }
        ∷ [])
