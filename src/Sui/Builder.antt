-- ===== src/Sui/Builder.antt =====
-- chain/sui/builder.go: `NewTransfer`, which native and token transfers share. The input is copied, but
-- its coins are the caller's array, in which dropping the gas coin moves the later coins forward.
use crosschain_enhanced_by_a.Prelude.{
  ℕ, suc, ◌+◌, ◌-◌, ◌%◌, ◌^◌, ◌&&◌, not, List, [], ◌∷◌, ◌++◌, Option, none, some, Result, ok, err,
  ◌>>=◌, if◌then◌else◌, ◌==◌, ltb, length,
}
use crosschain_enhanced_by_a.Prelude.Int.{ℤ}
use crosschain_enhanced_by_a.Prelude.Text.{Text}
use crosschain_enhanced_by_a.Bitcoin.Tx.{uint64}
use crosschain_enhanced_by_a.Sui.{
  Coin, TxInput, Failure, exclude_gas_coin, total_balance, is_native_transfer,
}
use crosschain_enhanced_by_a.Sui.Util.{
  ObjectRef, decode_hex, hex_to_object_id, hex_to_address, little_endian_bytes,
  base58_to_object_digest, coin_to_object,
}

-- `bcs.CallArg`
pub data CallArg : Type 0 where
  pure : List ℕ → CallArg
  object : ObjectRef → CallArg

-- `bcs.Argument`, as far as it is used
pub data Argument : Type 0 where
  gas_coin : Argument
  input : ℕ → Argument
  result : ℕ → Argument

-- `bcs.Command`, as far as it is used
pub data Command : Type 0 where
  split_coins : Argument → List Argument → Command
  merge_coins : Argument → List Argument → Command
  transfer_objects : List Argument → Argument → Command

-- The inputs and the commands of a `bcs.ProgrammableTransaction`.
pub record Program : Type 0 where
  pub inputs : List CallArg
  pub commands : List Command

-- `bcs.TransactionData__V1`, with one object to pay with
pub record TransactionData : Type 0 where
  pub payment : ObjectRef
  pub owner : List ℕ
  pub price : ℕ
  pub budget : ℕ
  pub sender : List ℕ
  pub expiration_epoch : ℕ
  pub program : Program

-- `Tx`
pub record Tx : Type 0 where
  pub signatures : List (List ℕ)
  pub public_key : List ℕ
  pub tx_data : TransactionData

-- `MaxCoinObjects`
abbrev pub max_coin_objects : ℕ
max_coin_objects = 50

-- `ArgumentInput(uint16(i))` and `ArgumentResult(uint16(i))`
abbrev pub argument_input : ℕ → Argument
argument_input i = input (i % 2 ^ 16)

abbrev pub argument_result : ℕ → Argument
argument_result i = result (i % 2 ^ 16)

abbrev pub u64_to_pure : ℕ → CallArg
u64_to_pure n = pure (little_endian_bytes 8 n)

abbrev pub min_of : ℕ → ℕ → ℕ
min_of a b = if ltb b a then b else a

-- The budget for gas, of an input without its gas coin.
unfoldable pub gas_budget : TxInput → ℤ → Result Failure ℕ
unfolding total_balance is_native_transfer uint64
gas_budget local amount =
    let sending = uint64 amount in
    let total = total_balance local % 2 ^ 64 in
    let capped = min_of local.gas_budget local.gas_coin.balance in
    if is_native_transfer local
    then if ltb total sending
      then err Failure.not_enough_funds
      else ok (min_of capped (total - sending))
    else ok (min_of capped local.gas_coin.balance)

-- I: the gas coin is split where other coins are sent with it.
unfoldable pub split_gas : TxInput → ℕ → Program × Option Argument
unfolding is_native_transfer
split_gas local budget =
    if is_native_transfer local && not (length local.coins == 0)
    then (
      record {
        inputs = u64_to_pure ((local.gas_coin.balance + 2 ^ 64 - budget) % 2 ^ 64) ∷ [];
        commands = split_coins gas_coin (argument_input 0 ∷ []) ∷ [];
      },
      some (argument_result 0),
    )
    else (record { inputs = []; commands = [] }, none)

-- III and IV: the amount is split off the primary coin and sent.
unfoldable pub pay : Program → Argument → ℕ → List ℕ → Program
pay program primary amount to = record {
  inputs = program.inputs ++ (u64_to_pure amount ∷ pure to ∷ []);
  commands =
      program.commands
      ++ (split_coins primary (argument_input (length program.inputs) ∷ [])
          ∷ transfer_objects (argument_result (length program.commands) ∷ [])
              (argument_input (length program.inputs + 1))
          ∷ []);
}

abbrev pub or_gas_coin : Option Argument → Argument
or_gas_coin none = gas_coin
or_gas_coin (some a) = a

module _ (base58_decode : Text → List ℕ) where
  -- The loop over the coins behind the first: the inputs and the arguments of the merge.
  unfoldable pub merge_rest :
      ℕ → List CallArg → List Argument → List Coin → Result Failure (List CallArg × List Argument)
  unfolding coin_to_object
  merge_rest i inputs merged [] = ok (inputs, merged)
  merge_rest i inputs merged (coin ∷ coins) =
      if ltb max_coin_objects i
      then ok (inputs, merged)
      else (coin_to_object base58_decode coin >>= λ obj.
          merge_rest (suc i) (inputs ++ object obj ∷ [])
            (merged ++ argument_input (length inputs) ∷ []) coins)

  -- II: the coins are merged into the first. The program and the primary coin.
  unfoldable pub merge_all :
      List Coin → Program × Option Argument → Result Failure (Program × Argument)
  unfolding merge_rest coin_to_object
  merge_all [] (program, remainder) = ok (program, or_gas_coin remainder)
  merge_all (first ∷ rest) (program, remainder) = do
    obj ← coin_to_object base58_decode first
    merged ←
        merge_rest 0 (program.inputs ++ object obj ∷ [])
          (elim remainder [
            | none ↦ []
            | some _ ↦ argument_result (length program.commands - 1) ∷ []
          ])
          rest
    let primary = argument_input (length program.inputs) in
        ok (
          record {
            inputs = merged.0;
            commands =
                if length merged.1 == 0
                then program.commands
                else program.commands ++ merge_coins primary merged.1 ∷ [];
          },
          primary,
        )

  -- The program of a transfer.
  unfoldable pub program_of : TxInput → ℕ → ℕ → List ℕ → Result Failure Program
  unfolding split_gas merge_all pay
  program_of local budget amount to = merge_all local.coins (split_gas local budget) >>= λ merged.
      ok (pay merged.0 merged.1 amount to)

  -- `NewTransfer`, of an input of the chain
  unfoldable pub new_transfer : Text → Text → ℤ → TxInput → Result Failure Tx
  unfolding exclude_gas_coin gas_budget program_of decode_hex hex_to_object_id hex_to_address
      base58_to_object_digest uint64
  new_transfer from to amount given =
      if length given.pubkey == 0 then err Failure.no_public_key else (do
        owner ← hex_to_address from
        recipient ← decode_hex to
        id ← hex_to_object_id given.gas_coin.coin_object_id
        digest ← base58_to_object_digest base58_decode given.gas_coin.digest
        budget ← gas_budget (exclude_gas_coin given) amount
        program ← program_of (exclude_gas_coin given) budget (uint64 amount) recipient
        ok (record {
          signatures = [];
          public_key = given.pubkey;
          tx_data = record {
            payment = record { id = id; version = given.gas_coin.version; digest = digest };
            owner = owner;
            price = given.gas_price;
            budget = budget;
            sender = owner;
            expiration_epoch = given.current_epoch;
            program = program;
          };
        }))
