-- ===== src/Evm/Tx.antt =====
-- chain/evm/tx.go: a transaction, its parsing as an ERC20 transfer, and what is read off it. A method on
-- a nil `EthTx` that the source does not test for panics.
pub mod Batch
pub mod Receipt
use crosschain_enhanced_by_a.Prelude.{
  ℕ, zero, suc, ◌+◌, ◌*◌, Bool, false, ◌&&◌, List, [], ◌∷◌, ◌++◌, Option, none, some, Result, ok,
  err, ◌>>=◌, if◌then◌else◌, ◌==◌, ltb, length, take,
}
use crosschain_enhanced_by_a.Prelude.Int.{ℤ, pos, negsuc, ◌+ℤ◌, ◌*ℤ◌, ltb_ℤ}
use crosschain_enhanced_by_a.Prelude.Text.{Text, codes, eq_text, has_prefix}
use crosschain_enhanced_by_a.Prelude.Bytes.{big_endian, hex_encode, slice}
use crosschain_enhanced_by_a.Bitcoin.Tx.{int64}
use crosschain_enhanced_by_a.Evm.{Eth, Failure}

-- `TxInfoEndpoint`; the pointer `AssetConfig` is not set here.
pub record Endpoint : Type 0 where
  pub address : Text
  pub contract_address : Text
  pub amount : ℤ
  pub native_asset : Text
  pub asset : Text

-- `parsedTxInfo`
pub record ParsedTxInfo : Type 0 where
  pub sources : List Endpoint
  pub destinations : List Endpoint

-- `ensure0x`
unfoldable pub ensure_0x : Text → Text
unfolding has_prefix
ensure_0x address = if has_prefix address (codes "0x") then address else codes "0x" ++ address

-- `payload[from:to]`
unfoldable pub slice_of : ℕ → ℕ → List ℕ → Result Failure (List ℕ)
unfolding slice
slice_of from to payload = elim (slice from to payload) [ none ↦ err Failure.panic | some s ↦ ok s ]

-- The number in the word at an offset.
unfoldable pub amount_at : ℕ → List ℕ → Result Failure ℤ
unfolding slice_of big_endian
amount_at offset payload = do
  word ← slice_of offset (offset + 32) payload
  ok (pos (big_endian 0 word))

-- The length test and the method test of `ParseERC20TransferTx`.
unfoldable pub is_erc20_transfer : List ℕ → Bool
unfolding eq_text hex_encode
is_erc20_transfer payload =
    length payload == 68 && eq_text (hex_encode (take 4 payload)) (codes "a9059cbb")

module _ (eth : Eth) where
  -- `Tx`
  pub record Tx : Type 0 where
    pub eth_tx : Option eth.Transaction
    pub signer : Option eth.Signer

  -- The text of the address in the word at an offset.
  unfoldable pub address_at : ℕ → List ℕ → Result Failure Text
  unfolding slice_of ensure_0x
  address_at offset payload = do
    bytes ← slice_of (offset + 12) (offset + 32) payload
    ok (ensure_0x (eth.address_string bytes))

  -- `Hash`
  unfoldable pub hash : Tx → Text
  hash tx = elim tx.eth_tx [ none ↦ [] | some t ↦ eth.hash_of t ]

  -- `Sighashes`
  unfoldable pub sighashes : Tx → Result Failure (List (List ℕ))
  sighashes tx = elim tx.eth_tx [
    | none ↦ err Failure.not_initialized
    | some t ↦ elim tx.signer [
      | none ↦ err Failure.panic
      | some signer ↦ ok (eth.signer_hash signer t ∷ [])
    ]
  ]

  -- `AddSignatures`, of the first signature: the transaction after the call, and the error.
  unfoldable pub add_signatures : Tx → List (List ℕ) → Tx × Option Failure
  add_signatures tx signatures = elim tx.eth_tx [
    | none ↦ (tx, some Failure.not_initialized)
    | some t ↦ elim signatures [
      | [] ↦ (tx, some Failure.panic)
      | first ∷ _ ↦ elim tx.signer [
        | none ↦ (tx, some Failure.panic)
        | some signer ↦ elim (eth.with_signature t signer first) [
          | none ↦ (tx, some Failure.bad_signature)
          | some signed ↦ (record tx { eth_tx = some signed }, none)
        ]
      ]
    ]
  ]

  -- `Serialize`
  unfoldable pub serialize : Tx → Result Failure (List ℕ)
  serialize tx = elim tx.eth_tx [
    | none ↦ err Failure.not_initialized
    | some t ↦ elim (eth.marshal_binary t) [ none ↦ err Failure.not_marshalled | some b ↦ ok b ]
  ]

  -- `IsContract`
  unfoldable pub is_contract : Tx → Bool
  is_contract tx = elim tx.eth_tx [ none ↦ false | some t ↦ ltb 0 (length (eth.data_of t)) ]

  -- `From`
  unfoldable pub from : Tx → Text
  from tx = elim tx.eth_tx [
    | none ↦ []
    | some t ↦ elim tx.signer [
      | none ↦ []
      | some signer ↦ elim (eth.sender signer t) [ none ↦ [] | some a ↦ eth.address_string a ]
    ]
  ]

  -- `tx.EthTx.To().String()`
  unfoldable pub to_string : eth.Transaction → Result Failure Text
  to_string t = elim (eth.to_of t) [ none ↦ err Failure.panic | some a ↦ ok (eth.address_string a) ]

  -- `ContractAddress`
  unfoldable pub contract_address : Tx → Result Failure Text
  unfolding is_contract to_string
  contract_address tx = elim tx.eth_tx [
    | none ↦ ok []
    | some t ↦ if is_contract tx then to_string t else ok []
  ]

  -- `ParseERC20TransferTx`
  unfoldable pub parse_erc20_transfer_tx : Tx → Text → Result Failure ParsedTxInfo
  unfolding is_erc20_transfer address_at amount_at from contract_address
  parse_erc20_transfer_tx tx native = elim tx.eth_tx [
    | none ↦ err Failure.panic
    | some t ↦
        if is_erc20_transfer (eth.data_of t)
        then (do
          to ← address_at 4 (eth.data_of t)
          amount ← amount_at 36 (eth.data_of t)
          contract ← contract_address tx
          ok (record {
            sources =
                record {
                  address = from tx;
                  contract_address = contract;
                  amount = amount;
                  native_asset = native;
                  asset = [];
                }
                ∷ [];
            destinations =
                record {
                  address = to;
                  contract_address = contract;
                  amount = amount;
                  native_asset = native;
                  asset = [];
                }
                ∷ [];
          }))
        else err Failure.not_erc20
  ]

  -- `info.Destinations[0]`
  abbrev pub first_destination : ParsedTxInfo → Result Failure Endpoint
  first_destination info = elim info.destinations [ [] ↦ err Failure.panic | e ∷ _ ↦ ok e ]

  -- `To`; an error that is not a panic is ignored.
  unfoldable pub to : Tx → Result Failure Text
  unfolding is_contract to_string parse_erc20_transfer_tx
  to tx = elim tx.eth_tx [
    | none ↦ ok []
    | some t ↦
        if is_contract tx
        then (elim (parse_erc20_transfer_tx tx []) [
          | ok info ↦ (first_destination info >>= λ e. ok e.address)
          | err Failure.panic ↦ err Failure.panic
          | err _ ↦ to_string t
        ])
        else to_string t
  ]

  -- `Amount`
  unfoldable pub amount : Tx → Result Failure ℤ
  unfolding parse_erc20_transfer_tx
  amount tx = elim tx.eth_tx [
    | none ↦ ok (pos 0)
    | some t ↦ elim (parse_erc20_transfer_tx tx []) [
      | ok info ↦ (first_destination info >>= λ e. ok e.amount)
      | err Failure.panic ↦ err Failure.panic
      | err _ ↦ ok (eth.value_of t)
    ]
  ]

  -- `Fee`
  unfoldable pub fee : eth.Transaction → ℕ → ℕ → ℤ
  unfolding ◌+ℤ◌ ◌*ℤ◌
  fee t base_fee gas_used =
      let fee_1 = pos gas_used *ℤ (pos base_fee +ℤ eth.gas_tip_cap_of t) in
      let fee_2 = eth.gas_price_of t *ℤ pos gas_used in if ltb_ℤ fee_1 fee_2 then fee_1 else fee_2
