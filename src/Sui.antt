-- ===== src/Sui.antt =====
-- chain/sui/tx.go: a transfer's input and its coins, and what the driver calls of go-sui, base58,
-- blake2b and the generated BCS code.
pub mod Util
pub mod Builder
pub mod Budget
pub mod Shape
pub mod Run
pub mod Tx
use crosschain_enhanced_by_a.Prelude.{
  ℕ, ◌+◌, Bool, true, false, ◌||◌, List, [], ◌∷◌, Option, none, some, if◌then◌else◌,
}
use crosschain_enhanced_by_a.Prelude.Text.{Text, eq_text, is_empty}

-- What is read of a `types.Coin`: `CoinObjectId.String()`, and `Uint64()` of its numbers.
pub record Coin : Type 0 where
  pub coin_type : Text
  pub coin_object_id : Text
  pub version : ℕ
  pub digest : Text
  pub balance : ℕ

-- `TxInput`, without the type tag of the envelope.
pub record TxInput : Type 0 where
  pub gas_budget : ℕ
  pub gas_price : ℕ
  pub pubkey : List ℕ
  pub gas_coin : Coin
  pub coins : List Coin
  pub current_epoch : ℕ

-- Why a call of the driver fails; `panic` is a run-time error of Go.
pub data Failure : Type 0 where
  panic wrong_input no_public_key bad_hex bad_object_id bad_base58 : Failure
  not_enough_funds not_serialized : Failure

-- The loop of `ExcludeGasCoin`: the first coin with the object of the gas coin is dropped.
unfoldable pub drop_coin : Text → List Coin → List Coin
unfolding eq_text
drop_coin id [] = []
drop_coin id (c ∷ cs) =
    let rest = c ∷ drop_coin id cs in if eq_text c.coin_object_id id then cs else rest

-- `ExcludeGasCoin`
unfoldable pub exclude_gas_coin : TxInput → TxInput
unfolding drop_coin
exclude_gas_coin input = record input {
  coins = drop_coin input.gas_coin.coin_object_id input.coins;
}

-- The loop of `TotalBalance`: the type of the last coin, and the sum.
unfoldable pub sum_coins : Text → ℕ → List Coin → Text × ℕ
sum_coins kind amount [] = (kind, amount)
sum_coins kind amount (c ∷ cs) = sum_coins c.coin_type (amount + c.balance) cs

-- `TotalBalance`
unfoldable pub total_balance : TxInput → ℕ
unfolding sum_coins eq_text
total_balance input =
    let summed = sum_coins [] 0 input.coins in
    if is_empty summed.0 || eq_text summed.0 input.gas_coin.coin_type
    then summed.1 + input.gas_coin.balance
    else summed.1

-- `IsNativeTransfer`
unfoldable pub is_native_transfer : TxInput → Bool
unfolding eq_text
is_native_transfer input = elim input.coins [
  | [] ↦ true
  | c ∷ _ ↦ eq_text c.coin_type input.gas_coin.coin_type
]
