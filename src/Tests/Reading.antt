-- ===== src/Tests/Reading.antt =====
-- Tests of the reading of a transfer off a transaction.
use crosschain_enhanced_by_a.Prelude.{false, List, [], ◌∷◌}
use crosschain_enhanced_by_a.Prelude.Int.{pos}
use crosschain_enhanced_by_a.Prelude.Text.{codes}
use crosschain_enhanced_by_a.Bitcoin.{Input, Recipient}
use crosschain_enhanced_by_a.Bitcoin.Tx.{Tx}
use crosschain_enhanced_by_a.Tests.Sample.{input, unsigned_tx}

abbrev inputs : List Input
inputs = input (codes "a") 5000 ∷ input (codes "b") 70000 ∷ []

abbrev recipients : List Recipient
recipients =
    record { to = codes "c"; value = pos 100 } ∷ record { to = codes "b"; value = pos 74000 } ∷ []

-- A transaction that pays one output.
abbrev paying_tx : Tx
paying_tx = record (unsigned_tx false) {
  msg_tx = record {
    version = 2;
    tx_in = [];
    tx_out = record { value = pos 100; script = 118 ∷ [] } ∷ [];
  };
}
