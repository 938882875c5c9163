-- ===== src/Evm/Tx/Batch.antt =====
-- chain/evm/tx.go: the parsing of a multi-send.
use crosschain_enhanced_by_a.Prelude.{
  ℕ, zero, suc, ◌+◌, ◌*◌, Bool, false, List, [], ◌∷◌, Option, none, some, Result, ok, err, ◌>>=◌,
  if◌then◌else◌, ◌==◌, ltb, length, take,
}
use crosschain_enhanced_by_a.Prelude.Int.{ℤ, pos, negsuc, ◌+ℤ◌, ◌*ℤ◌}
use crosschain_enhanced_by_a.Prelude.Text.{Text, codes, eq_text}
use crosschain_enhanced_by_a.Prelude.Bytes.{big_endian, hex_encode}
use crosschain_enhanced_by_a.Bitcoin.Tx.{int64}
use crosschain_enhanced_by_a.Evm.{Eth, Failure}
use crosschain_enhanced_by_a.Evm.Tx.{
  Tx, Endpoint, ParsedTxInfo, slice_of, amount_at, address_at, contract_address,
}

-- The two kinds of multi-send, by their method.
pub data Multisend : Type 0 where
  eth_multisend erc20_multisend : Multisend

abbrev pub num_params : Multisend → ℕ
num_params eth_multisend = 2
num_params erc20_multisend = 3

-- `abiSig`, tested for the two methods.
unfoldable pub multisend_kind : Text → Option Multisend
unfolding eq_text
multisend_kind sig =
    if eq_text sig (codes "1a1da075")
    then some eth_multisend
    else if eq_text sig (codes "ca350aa6")
    then some erc20_multisend
    else none

-- `len(payload) != offset+numParams*32*arrayLen`, in the arithmetic of int64.
unfoldable pub has_entries : ℕ → Multisend → ℤ → Bool
unfolding int64 ◌+ℤ◌ ◌*ℤ◌
has_entries size kind count = elim (int64 (pos 100 +ℤ pos (num_params kind * 32) *ℤ count)) [
  | pos n ↦ size == n
  | negsuc n ↦ false
]

module _ (eth : Eth) where
  -- A round of the loop of `ParseMultisendTransferTx`, at an offset.
  unfoldable pub multisend_entry : Multisend → ℕ → List ℕ → Result Failure Endpoint
  unfolding address_at amount_at
  multisend_entry eth_multisend offset payload = do
    to ← address_at eth offset payload
    amount ← amount_at (offset + 32) payload
    ok (record {
      address = to;
      contract_address = [];
      amount = amount;
      native_asset = [];
      asset = codes "ETH";
    })
  multisend_entry erc20_multisend offset payload = do
    contract ← address_at eth offset payload
    to ← address_at eth (offset + 32) payload
    amount ← amount_at (offset + 64) payload
    ok (record {
      address = to;
      contract_address = contract;
      amount = amount;
      native_asset = [];
      asset = [];
    })

  -- The loop of `ParseMultisendTransferTx`, for the rounds that are left.
  unfoldable pub multisend_entries : Multisend → ℕ → ℕ → List ℕ → Result Failure (List Endpoint)
  unfolding multisend_entry
  multisend_entries kind zero offset payload = ok []
  multisend_entries kind (suc n) offset payload = elim (multisend_entry kind offset payload) [
    | err e ↦ err e
    | ok entry ↦ elim (multisend_entries kind n (offset + num_params kind * 32) payload) [
      | err e ↦ err e
      | ok rest ↦ ok (entry ∷ rest)
    ]
  ]

  -- The rounds of a loop up to a signed count.
  abbrev pub rounds : ℤ → ℕ
  rounds (pos n) = n
  rounds (negsuc n) = 0

  -- `ParseMultisendTransferTx`, once the method is one of the two.
  unfoldable pub parse_multisend : Tx eth → Multisend → List ℕ → Result Failure ParsedTxInfo
  unfolding slice_of big_endian int64 has_entries multisend_entries contract_address
  parse_multisend tx kind payload = do
    word ← slice_of 68 100 payload
    let count = int64 (pos (big_endian 0 word)) in
        if has_entries (length payload) kind count
        then (do
          entries ← multisend_entries kind (rounds count) 100 payload
          contract ← contract_address eth tx
          ok (record {
            sources =
                record {
                  address = contract;
                  contract_address = [];
                  amount = pos 0;
                  native_asset = [];
                  asset = [];
                }
                ∷ [];
            destinations = entries;
          }))
        else err Failure.multisend_length

  -- `ParseMultisendTransferTx`
  unfoldable pub parse_multisend_transfer_tx : Tx eth → Result Failure ParsedTxInfo
  unfolding multisend_kind hex_encode parse_multisend
  parse_multisend_transfer_tx tx = elim tx.eth_tx [
    | none ↦ err Failure.panic
    | some t ↦
        let payload = eth.data_of t in
        if ltb (length payload) 4
        then err Failure.miscellaneous
        else (elim (multisend_kind (hex_encode (take 4 payload))) [
          | none ↦ err Failure.not_multisend
          | some kind ↦ parse_multisend tx kind payload
        ])
  ]
