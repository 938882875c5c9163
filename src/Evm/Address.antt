-- ===== src/Evm/Address.antt =====
-- chain/evm/address.go and chain/evm/evm.go: addresses of public keys, and of texts.
use crosschain_enhanced_by_a.Prelude.{
  ℕ, List, none, some, Result, ok, err, if◌then◌else◌, ◌==◌, length,
}
use crosschain_enhanced_by_a.Prelude.Text.{Text, codes, trim_prefix}
use crosschain_enhanced_by_a.Evm.{Eth, Failure}

-- `TrimPrefixes`
unfoldable pub trim_prefixes : Text → Text
unfolding trim_prefix
trim_prefixes s = trim_prefix (trim_prefix s (codes "0x")) (codes "xdc")

module _ (eth : Eth) where
  -- `HexToAddress`, which never fails
  unfoldable pub hex_to_address : Text → Result Failure (List ℕ)
  unfolding trim_prefixes
  hex_to_address address = ok (eth.hex_to_address (trim_prefixes address))

  -- `GetAddressFromPublicKey`
  unfoldable pub get_address_from_public_key : List ℕ → Result Failure Text
  get_address_from_public_key key =
      elim (if length key == 33 then eth.decompress_pubkey key else eth.unmarshal_pubkey key) [
        | none ↦ err Failure.bad_public_key
        | some public ↦ ok (eth.pubkey_address public)
      ]
