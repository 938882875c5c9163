-- ===== src/Tests/SuiTransfer.antt =====
-- Tests of a Sui transfer of native coins.
use crosschain_enhanced_by_a.Prelude.{
  ◌⊎◌, false, ℕ, ◌+◌, ◌^◌, ◌≤◌, [], ◌∷◌, ◌≡◌, refl, arith, ◌%◌, Result, ok, err, replicate,
}
use crosschain_enhanced_by_a.Prelude.Int.{pos}
use crosschain_enhanced_by_a.Prelude.Text.{Text, codes}
use crosschain_enhanced_by_a.Bitcoin.Tx.{uint64}
use crosschain_enhanced_by_a.Sui.{Coin, TxInput, Failure, is_native_transfer, total_balance}
use crosschain_enhanced_by_a.Sui.Builder.{Program, gas_budget, program_of}
use crosschain_enhanced_by_a.Sui.Budget.{gas_budget-bounds}
use crosschain_enhanced_by_a.Sui.Run.Native.{PaysOut}
use crosschain_enhanced_by_a.Sui.Run.Transfer.{program_of-PaysOut}

-- The text of an object: 64 times one digit.
abbrev object_text : ℕ → Text
object_text digit = replicate 64 digit

abbrev sui_coin : ℕ → ℕ → Coin
sui_coin digit balance = record {
  coin_type = codes "0x2::sui::SUI";
  coin_object_id = object_text digit;
  version = 3;
  digest = codes "d";
  balance = balance;
}

abbrev wallet : TxInput
wallet = record {
  gas_budget = 2000;
  gas_price = 1;
  pubkey = 1 ∷ [];
  gas_coin = sui_coin b'1' 5000;
  coins = sui_coin b'2' 700 ∷ sui_coin b'3' 60 ∷ [];
  current_epoch = 9;
}

gas_budget-bounds_example :
    (2000 ≤ 2000)
    × (2000 ≤ 5000)
    × ((is_native_transfer wallet ≡ false)
        ⊎ (2000 + uint64 (pos 3500) ≤ total_balance wallet % 2 ^ 64))
unfolding gas_budget
gas_budget-bounds_example = gas_budget-bounds wallet (pos 3500) refl

-- The program of a transfer of 3500, as it is computed.
abbrev program_built : Result Failure Program
program_built = program_of (λ text. text) wallet 2000 3500 (codes "bob")

abbrev built : Program
built = elim program_built [ err e ↦ record { inputs = []; commands = [] } | ok p ↦ p ]

program_of-PaysOut_example : PaysOut wallet 2000 (uint64 (pos 3500)) (codes "bob") built
unfolding gas_budget program_of uint64
program_of-PaysOut_example =
    program_of-PaysOut (λ text. text) wallet (pos 3500) (codes "bob") (omega arith)
      (refl, (refl, tt)) (omega arith) refl refl
