-- ===== src/Tests/Ethereum.antt =====
-- Tests of EVM transactions: built, read back and parsed.
use crosschain_enhanced_by_a.Prelude.{
  true, false, none, some, ◌<◌, ok_injective, ◌*◌, ℕ, ◌+◌, ◌^◌, ◌≢◌, ◌⊎◌, List, [], ◌∷◌, ◌++◌, map,
  ok, err, ◌≡◌, refl, arith, length, replicate,
}
use crosschain_enhanced_by_a.Prelude.Int.{pos}
use crosschain_enhanced_by_a.Prelude.Text.{codes}
use crosschain_enhanced_by_a.Prelude.Bytes.{big_endian, left_pad, zeros, slice}
use crosschain_enhanced_by_a.Evm.Client.{Floats, Node, Client, base_fee, fetch_tx_input}
use crosschain_enhanced_by_a.Evm.Client.Prices.{Raises, Priced, fetch_tx_input-Priced}
use crosschain_enhanced_by_a.Evm.Tx.Receipt.{Erc20, parse_transfer}
use crosschain_enhanced_by_a.Evm.Tx.Receipt.Priority.{token_endpoint, parse_transfer-token}
use crosschain_enhanced_by_a.Evm.{DynamicFeeTx, Failure}
use crosschain_enhanced_by_a.Evm.Address.{trim_prefixes}
use crosschain_enhanced_by_a.Evm.Item.{single}
use crosschain_enhanced_by_a.Evm.Tx.{from, Endpoint, ensure_0x, slice_of}
use crosschain_enhanced_by_a.Evm.Tx.Batch.{
  eth_multisend, erc20_multisend, parse_multisend_transfer_tx, parse_multisend,
}
use crosschain_enhanced_by_a.Evm.Builder.{new_tx_builder, new_token_transfer, padded_amount}
use crosschain_enhanced_by_a.Evm.Builder.ReadBack.{
  erc20_payload, Reads, with_signer, new_token_transfer-Reads,
}
use crosschain_enhanced_by_a.Evm.Transfers.{Payout, multisend_payload, multisend_id, endpoint_of}
use crosschain_enhanced_by_a.Evm.Transfers.Parse.{
  multisend_info, parse_multisend-payload, parse_multisend-total,
}
use crosschain_enhanced_by_a.Tests.Toy.{
  ToyTx, twenty, toy, toy_laws, eth_config, usdc, fresh, made_legacy, made_dynamic,
}

new_token_transfer-Reads_example :
    Reads toy
      (with_signer toy
        (made_dynamic (record {
          chain_id = pos 1;
          nonce = 7;
          gas_tip_cap = pos 2;
          gas_fee_cap = pos 40;
          gas = 350000;
          to = twenty (codes "usdc");
          value = pos 0;
          data_bytes =
              0xa9
              ∷ 0x05
              ∷ 0x9c
              ∷ 0xbb
              ∷ (left_pad 32 (twenty (codes "bob")) ++ padded_amount (pos 1000));
        }))
        (pos 1))
      (ensure_0x (twenty (codes "bob")))
      (pos 1000)
      (twenty (codes "usdc"))
unfolding new_token_transfer trim_prefixes new_tx_builder
new_token_transfer-Reads_example =
    new_token_transfer-Reads toy toy_laws (new_tx_builder (single usdc)) (codes "bob") 1000 fresh
      (omega arith) refl refl refl

-- A transaction with a payload, sent to the text "pool".
abbrev sending : List ℕ → ToyTx
sending payload = made_legacy (record {
  nonce = 0;
  to = codes "pool";
  value = pos 0;
  gas = 100000;
  gas_price = pos 1;
  data_bytes = payload;
})

abbrev payouts : List Payout
payouts =
    record { contract = zeros 20; recipient = replicate 20 1; value = 5 }
    ∷ record { contract = zeros 20; recipient = replicate 20 2; value = 6 }
    ∷ []

parse_multisend-payload_example :
    parse_multisend_transfer_tx toy
      (with_signer toy (sending (multisend_payload erc20_multisend (zeros 64) payouts)) (pos 1))
    ≡ ok (
        multisend_info toy
          (sending (multisend_payload erc20_multisend (zeros 64) payouts))
          (pos 1)
          (codes "pool")
          refl
          (map (endpoint_of toy erc20_multisend) payouts))
parse_multisend-payload_example =
    parse_multisend-payload toy (sending (multisend_payload erc20_multisend (zeros 64) payouts))
      (pos 1) (codes "pool") refl erc20_multisend (zeros 64) payouts refl refl (omega arith)
      ((refl, refl, omega arith), ((refl, refl, omega arith), tt))

-- A payload of 164 bytes that counts one ETH entry.
abbrev one_entry : List ℕ
one_entry = zeros 99 ++ 1 ∷ zeros 64

parse_multisend-total_example :
    ((length one_entry ≢ 100 + 2 * 32 * 1)
      × (parse_multisend toy (with_signer toy (sending one_entry) (pos 1)) eth_multisend one_entry
          ≡ err Failure.multisend_length))
    ⊎ ((entries : List Endpoint) × (length entries ≡ 1)
        × (parse_multisend toy (with_signer toy (sending one_entry) (pos 1)) eth_multisend one_entry
            ≡ ok (multisend_info toy (sending one_entry) (pos 1) (codes "pool") refl entries)))
unfolding big_endian slice_of slice
parse_multisend-total_example =
    parse_multisend-total toy (sending one_entry) (pos 1) (codes "pool") refl eth_multisend
      (zeros 31 ++ 1 ∷ []) refl (omega arith)

abbrev huge_count : List ℕ
huge_count = multisend_id eth_multisend ++ (zeros 64 ++ padded_amount (pos (2 ^ 58)))

abbrev dynamic : DynamicFeeTx
dynamic = record {
  chain_id = pos 1;
  nonce = 7;
  gas_tip_cap = pos 2;
  gas_fee_cap = pos 40;
  gas = 90000;
  to = codes "pool";
  value = pos 5;
  data_bytes = [];
}

abbrev no_events : Erc20
no_events = record { is_transfer = λ topic. true; parse_transfer = λ log. none }

parse_transfer-token_example :
    parse_transfer toy no_events
      (with_signer toy (sending (erc20_payload (twenty (codes "bob")) 1000)) (pos 1))
      []
      (codes "ETH")
    ≡ ok (record {
      sources = token_endpoint toy [] (codes "pool") 1000 (codes "ETH") ∷ [];
      destinations =
          token_endpoint toy (ensure_0x (twenty (codes "bob"))) (codes "pool") 1000 (codes "ETH")
          ∷ [];
    })
unfolding from
parse_transfer-token_example =
    parse_transfer-token toy no_events (sending (erc20_payload (twenty (codes "bob")) 1000)) (pos 1)
      (twenty (codes "bob")) (codes "pool") 1000 (codes "ETH") [] refl (omega arith)
      (refl, refl, refl)

abbrev floats : Floats
floats = record { positive = λ m. false; two = 2; scaled = λ n m. n * m }

abbrev node : Node
node = record {
  estimate_gas_func = none;
  suggest_gas_price = none;
  latest_base_fee = some (some 30000000000);
  nonce_at = λ address. some 7;
}

abbrev client : Client
client = record { native_asset = eth_config; task_signer = []; legacy = false }

doubles : Raises floats floats.two
doubles n h = omega arith

none_configured : floats.positive 0 ≡ true → Raises floats 0
none_configured e = cc

below : (fee : ℕ) → base_fee client node ≡ ok fee → fee < 2 ^ 52
unfolding base_fee
below fee e = omega (arith, ok_injective e)

fetch_tx_input-Priced_example : Priced client (record {
  nonce = 7;
  gas_limit = 0;
  gas_tip_cap = pos 3000000000;
  gas_fee_cap = pos 66000000000;
  gas_price = pos 66000000000;
  params = [];
})
unfolding fetch_tx_input
fetch_tx_input-Priced_example =
    fetch_tx_input-Priced floats client node doubles none_configured below toy (codes "ann") refl
      (omega arith) refl
