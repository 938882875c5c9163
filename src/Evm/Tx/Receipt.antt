-- ===== src/Evm/Tx/Receipt.antt =====
-- chain/evm/tx.go: `ParseTransfer` and `parseReceipt`. The events and the generated binding of the ERC20
-- contract are an argument.
pub mod Priority
use crosschain_enhanced_by_a.Prelude.{
  ℕ, Bool, true, false, List, [], ◌∷◌, Option, none, some, Result, ok, err, ◌>>=◌, if◌then◌else◌,
}
use crosschain_enhanced_by_a.Prelude.Int.{ℤ}
use crosschain_enhanced_by_a.Prelude.Text.{Text}
use crosschain_enhanced_by_a.Evm.{Eth, Failure}
use crosschain_enhanced_by_a.Evm.Tx.{
  Tx, Endpoint, ParsedTxInfo, is_contract, from, to, amount, parse_erc20_transfer_tx,
}
use crosschain_enhanced_by_a.Evm.Tx.Batch.{parse_multisend_transfer_tx}

-- `types.Log`, as far as it is read
pub record Log : Type 0 where
  pub address : List ℕ
  pub topics : List (List ℕ)
  pub data_bytes : List ℕ

-- `Erc20Transfer`
pub record TransferEvent : Type 0 where
  pub from : List ℕ
  pub to : List ℕ
  pub tokens : ℤ

-- `EventByID`, tested for the name "Transfer", and `ParseTransfer` of the binding.
pub record Erc20 : Type 0 where
  pub is_transfer : List ℕ → Bool
  pub parse_transfer : Log → Option TransferEvent

module _ (eth : Eth) (erc20 : Erc20) where
  -- The endpoint of a log for one of its two addresses.
  unfoldable pub log_endpoint : Text → Log → ℤ → List ℕ → Endpoint
  log_endpoint native log tokens account = record {
    address = eth.address_string account;
    contract_address = eth.address_string log.address;
    amount = tokens;
    native_asset = native;
    asset = [];
  }

  -- A log in front of what the later logs give; one that cannot be parsed is skipped.
  unfoldable pub add_log : Text → Log → ParsedTxInfo → ParsedTxInfo
  unfolding log_endpoint
  add_log native log later = elim (erc20.parse_transfer log) [
    | none ↦ later
    | some event ↦ record {
      sources = log_endpoint native log event.tokens event.from ∷ later.sources;
      destinations = log_endpoint native log event.tokens event.to ∷ later.destinations;
    }
  ]

  -- `parseReceipt`, on the logs of the receipt; a log without a topic panics.
  unfoldable pub parse_receipt : Text → List Log → Result Failure ParsedTxInfo
  unfolding add_log
  parse_receipt native [] = ok (record { sources = []; destinations = [] })
  parse_receipt native (log ∷ logs) = elim log.topics [
    | [] ↦ err Failure.panic
    | topic ∷ _ ↦
        (parse_receipt native logs >>= λ later.
        ok (if erc20.is_transfer topic then add_log native log later else later))
  ]

  -- The steps 2 and 3 of `ParseTransfer`: the logs, and else the transaction itself.
  unfoldable pub parse_by_logs : Tx eth → List Log → Text → Result Failure ParsedTxInfo
  unfolding parse_receipt from to amount
  parse_by_logs tx logs native = do
    logged ← parse_receipt native logs
    elim logged.destinations [
      | _ ∷ _ ↦ ok logged
      | [] ↦ (do
        value ← amount eth tx
        recipient ← to eth tx
        ok (record {
          sources =
              record {
                address = from eth tx;
                contract_address = [];
                amount = value;
                native_asset = native;
                asset = [];
              }
              ∷ [];
          destinations =
              record {
                address = recipient;
                contract_address = [];
                amount = value;
                native_asset = native;
                asset = [];
              }
              ∷ [];
        }))
    ]

  -- `if err != nil { // ignore }`: a panic is not ignored.
  abbrev pub or_else :
      Result Failure ParsedTxInfo → Result Failure ParsedTxInfo → Result Failure ParsedTxInfo
  or_else (ok info) next = ok info
  or_else (err Failure.panic) next = err Failure.panic
  or_else (err _) next = next

  -- `ParseTransfer`
  unfoldable pub parse_transfer : Tx eth → List Log → Text → Result Failure ParsedTxInfo
  unfolding is_contract parse_multisend_transfer_tx parse_erc20_transfer_tx parse_by_logs
  parse_transfer tx logs native =
      if is_contract eth tx
      then or_else (parse_multisend_transfer_tx eth tx)
          (or_else (parse_erc20_transfer_tx eth tx native) (parse_by_logs tx logs native))
      else parse_by_logs tx logs native
