-- ===== src/Aptos/Builder.antt =====
-- chain/aptos/builder.go: the transactions of the driver.
use crosschain_enhanced_by_a.Prelude.{ℕ, ◌+◌, ◌*◌, ◌%◌, ◌^◌, List, [], ◌∷◌, Result, ok, ◌>>=◌}
use crosschain_enhanced_by_a.Prelude.Int.{ℤ}
use crosschain_enhanced_by_a.Prelude.Text.{Text, codes}
use crosschain_enhanced_by_a.Bitcoin.Tx.{uint64}
use crosschain_enhanced_by_a.Solana.Builder.{uint8_of}
use crosschain_enhanced_by_a.Aptos.{
  Failure, TxInput, EntryFunction, Apt, Asset, native, token, or_fail, must_decode_hex,
  address_array,
}
use crosschain_enhanced_by_a.Aptos.Tx.{Tx}

-- The contract of a token transfer: of the token, or where that is empty of its `AssetConfig`.
abbrev pub first_contract : Text → Text → Text
first_contract [] other = other
first_contract (x ∷ s) other = x ∷ s

unfoldable pub contract_of : Asset → Text
contract_of (native c) = c.contract
contract_of (token t) = first_contract t.contract t.base.contract

module _ (apt : Apt) where
  -- The unsigned transaction of a payload, which expires an hour after the input.
  unfoldable pub raw_transaction :
      List ℕ → EntryFunction apt.ModuleId apt.TypeTag → TxInput → Tx apt
  unfolding uint8_of
  raw_transaction sender payload input = record {
    input = input;
    tx = record {
      sender = sender;
      sequence_number = input.sequence_number;
      payload = payload;
      max_gas_amount = input.gas_limit;
      gas_unit_price = input.gas_price;
      expiration_timestamp_secs = (input.timestamp + 60 * 60) % 2 ^ 64;
      chain_id = uint8_of input.chain_id;
    };
    tx_serialized = [];
    tx_signing_message = [];
    tx_signature = [];
  }

  -- `NewNativeTransfer`
  unfoldable pub new_native_transfer : Text → Text → ℤ → TxInput → Result Failure (Tx apt)
  unfolding must_decode_hex address_array raw_transaction uint64
  new_native_transfer from to amount input = do
    from_bytes ← must_decode_hex from
    to_bytes ← must_decode_hex to
    name ← or_fail Failure.bad_module (apt.module_id (codes "0x1::aptos_account"))
    ok (
        raw_transaction (address_array from_bytes)
          (record {
            module_name = name;
            function_name = codes "transfer";
            ty_args = [];
            arguments = address_array to_bytes ∷ apt.bcs_uint64 (uint64 amount) ∷ [];
          })
          input)

  -- `NewTokenTransfer`
  unfoldable pub new_token_transfer : Asset → Text → Text → ℤ → TxInput → Result Failure (Tx apt)
  unfolding must_decode_hex address_array raw_transaction uint64 contract_of
  new_token_transfer asset from to amount input = do
    from_bytes ← must_decode_hex from
    to_bytes ← must_decode_hex to
    tag ← or_fail Failure.bad_type (apt.type_tag (contract_of asset))
    name ← or_fail Failure.bad_module (apt.module_id (codes "0x1::coin"))
    ok (
        raw_transaction (address_array from_bytes)
          (record {
            module_name = name;
            function_name = codes "transfer";
            ty_args = tag ∷ [];
            arguments = address_array to_bytes ∷ apt.bcs_uint64 (uint64 amount) ∷ [];
          })
          input)

  -- `NewTransfer`
  unfoldable pub new_transfer : Asset → Text → Text → ℤ → TxInput → Result Failure (Tx apt)
  unfolding new_native_transfer new_token_transfer
  new_transfer (token t) from to amount input = new_token_transfer (token t) from to amount input
  new_transfer (native c) from to amount input = new_native_transfer from to amount input
