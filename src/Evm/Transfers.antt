-- ===== src/Evm/Transfers.antt =====
-- chain/evm/tx.go: the payload of a multi-send, written by the description of its two methods, against
-- which `ParseMultisendTransferTx` is compared.
pub mod Entries
pub mod Parse
use crosschain_enhanced_by_a.Prelude.{
  ℕ, ◌+◌, ◌*◌, ◌^◌, ◌<◌, List, [], ◌∷◌, ◌++◌, map, ◌≡◌, refl, arith, length, length-append, All,
}
use crosschain_enhanced_by_a.Prelude.Int.{pos}
use crosschain_enhanced_by_a.Prelude.Text.{Text, codes}
use crosschain_enhanced_by_a.Prelude.Bytes.{left_pad, length-left_pad}
use crosschain_enhanced_by_a.Evm.{Eth}
use crosschain_enhanced_by_a.Evm.Tx.{Endpoint, ensure_0x}
use crosschain_enhanced_by_a.Evm.Tx.Batch.{Multisend, eth_multisend, erc20_multisend, num_params}
use crosschain_enhanced_by_a.Evm.Builder.{padded_amount}
use crosschain_enhanced_by_a.Evm.Builder.Words.{length-padded_amount}

-- What one entry pays: the contract is written by the ERC20 method only.
pub record Payout : Type 0 where
  pub contract : List ℕ
  pub recipient : List ℕ
  pub value : ℕ

abbrev pub IsPayout : Payout → Type 0
IsPayout p = (length p.contract ≡ 20) × (length p.recipient ≡ 20) × (p.value < 256 ^ 32)

abbrev pub entry_bytes : Multisend → Payout → List ℕ
entry_bytes eth_multisend p = left_pad 32 p.recipient ++ padded_amount (pos p.value)
entry_bytes erc20_multisend p =
    left_pad 32 p.contract ++ (left_pad 32 p.recipient ++ padded_amount (pos p.value))

abbrev pub entries_bytes : Multisend → List Payout → List ℕ
entries_bytes kind [] = []
entries_bytes kind (p ∷ ps) = entry_bytes kind p ++ entries_bytes kind ps

abbrev pub multisend_id : Multisend → List ℕ
multisend_id eth_multisend = 0x1a ∷ 0x1d ∷ 0xa0 ∷ 0x75 ∷ []
multisend_id erc20_multisend = 0xca ∷ 0x35 ∷ 0x0a ∷ 0xa6 ∷ []

-- The method, its two first parameters, the number of entries, and the entries.
abbrev pub multisend_payload : Multisend → List ℕ → List Payout → List ℕ
multisend_payload kind head ps =
    multisend_id kind ++ (head ++ (padded_amount (pos (length ps)) ++ entries_bytes kind ps))

-- What the parser is to report of an entry.
abbrev pub endpoint_of : Eth → Multisend → Payout → Endpoint
endpoint_of eth eth_multisend p = record {
  address = ensure_0x (eth.address_string p.recipient);
  contract_address = [];
  amount = pos p.value;
  native_asset = [];
  asset = codes "ETH";
}
endpoint_of eth erc20_multisend p = record {
  address = ensure_0x (eth.address_string p.recipient);
  contract_address = ensure_0x (eth.address_string p.contract);
  amount = pos p.value;
  native_asset = [];
  asset = [];
}

pub length-entry_bytes :
    (kind : Multisend) (p : Payout)
    → IsPayout p
    → length (entry_bytes kind p) ≡ num_params kind * 32
length-entry_bytes eth_multisend p (_, r, v) = omega (
  arith,
  length-append (left_pad 32 p.recipient) (padded_amount (pos p.value)),
  length-padded_amount p.value v,
  length-left_pad 32 p.recipient (omega (arith, r)),
)
length-entry_bytes erc20_multisend p (c, r, v) = omega (
  arith,
  length-append (left_pad 32 p.contract) (left_pad 32 p.recipient ++ padded_amount (pos p.value)),
  length-append (left_pad 32 p.recipient) (padded_amount (pos p.value)),
  length-padded_amount p.value v,
  length-left_pad 32 p.recipient (omega (arith, r)),
  length-left_pad 32 p.contract (omega (arith, c)),
)

pub length-entries_bytes :
    (kind : Multisend) (ps : List Payout)
    → All IsPayout ps
    → length (entries_bytes kind ps) ≡ num_params kind * 32 * length ps
length-entries_bytes kind [] h = omega arith
length-entries_bytes kind (p ∷ ps) h = omega (
  arith,
  length-append (entry_bytes kind p) (entries_bytes kind ps),
  length-entry_bytes kind p h.0,
  length-entries_bytes kind ps h.1,
)
