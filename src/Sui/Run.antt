-- ===== src/Sui/Run.antt =====
-- What the commands of a program do to the balances of coins, by the documentation of programmable
-- transaction blocks: an independent description, against which the builder is compared.
pub mod Merge
pub mod Pays
pub mod Native
pub mod Transfer
use crosschain_enhanced_by_a.Prelude.{
  ℕ, zero, suc, ◌+◌, ◌-◌, ◌*◌, Bool, List, [], ◌∷◌, ◌++◌, Option, none, some, if◌then◌else◌, ltb,
  get_elem?,
}
use crosschain_enhanced_by_a.Bitcoin.Signing.{set_elem}
use crosschain_enhanced_by_a.Sui.Builder.{
  CallArg, Argument, Command, pure, object, gas_coin, input, result, split_coins, merge_coins,
  transfer_objects,
}

-- An input: a coin with its balance, the bytes of a value, or an object that is used up.
pub data Slot : Type 0 where
  coin : ℕ → Slot
  bytes : List ℕ → Slot
  used : Slot

-- The gas coin, the inputs, the result of each command, where it is a coin that is still there, and
-- what was sent to whom.
pub record Chain : Type 0 where
  pub gas : ℕ
  pub slots : List Slot
  pub results : List (Option ℕ)
  pub sent : List (ℕ × List ℕ)

unfoldable pub le_value : List ℕ → ℕ
le_value [] = 0
le_value (b ∷ bs) = b + 256 * le_value bs

-- The inputs as they are at the start, with the balances of the objects in order.
unfoldable pub load : List CallArg → List ℕ → List Slot
load [] balances = []
load (pure x ∷ args) balances = bytes x ∷ load args balances
load (object o ∷ args) [] = used ∷ load args []
load (object o ∷ args) (b ∷ balances) = coin b ∷ load args balances

abbrev pub slot_balance : Option Slot → Option ℕ
slot_balance (some (coin b)) = some b
slot_balance _ = none

abbrev pub slot_bytes : Option Slot → Option (List ℕ)
slot_bytes (some (bytes b)) = some b
slot_bytes _ = none

abbrev pub result_balance : Option (Option ℕ) → Option ℕ
result_balance (some b) = b
result_balance none = none

abbrev pub balance_of : Chain → Argument → Option ℕ
balance_of s gas_coin = some s.gas
balance_of s (input i) = slot_balance (get_elem? s.slots i)
balance_of s (result i) = result_balance (get_elem? s.results i)

abbrev pub bytes_of : Chain → Argument → Option (List ℕ)
bytes_of s (input i) = slot_bytes (get_elem? s.slots i)
bytes_of s _ = none

abbrev pub set_balance : Chain → Argument → ℕ → Chain
set_balance s gas_coin b = record s { gas = b }
set_balance s (input i) b = record s { slots = set_elem s.slots i (coin b) }
set_balance s (result i) b = record s { results = set_elem s.results i (some b) }

-- An object that is moved; the gas coin cannot be.
abbrev pub consume : Chain → Argument → Option Chain
consume s gas_coin = none
consume s (input i) = some (record s { slots = set_elem s.slots i used })
consume s (result i) = some (record s { results = set_elem s.results i none })

abbrev pub bind {ℓ} : {A B : Type ℓ} → Option A → (A → Option B) → Option B
bind none k = none
bind (some a) k = k a

-- The coins of a merge, used up one after the other, and their sum.
unfoldable pub collect : List Argument → Chain → ℕ → Option (Chain × ℕ)
collect [] s sum = some (s, sum)
collect (a ∷ more) s sum =
    bind (balance_of s a) (λ b. bind (consume s a) (λ next. collect more next (sum + b)))

abbrev pub with_result : Chain → Option ℕ → Chain
with_result s r = record s { results = s.results ++ r ∷ [] }

-- A command; those of another form than the builder's are not described.
unfoldable pub run_command : Command → Chain → Option Chain
unfolding le_value collect
run_command (split_coins from (amount ∷ [])) s = bind (balance_of s from) (λ balance.
    bind (bytes_of s amount) (λ encoded.
      if ltb balance (le_value encoded)
      then none
      else some (
          with_result (set_balance s from (balance - le_value encoded)) (some (le_value encoded)))))
run_command (merge_coins into more) s = bind (collect more s 0) (λ collected.
    bind (balance_of collected.0 into)
      (λ balance. some (with_result (set_balance collected.0 into (balance + collected.1)) none)))
run_command (transfer_objects (moved ∷ []) to) s = bind (balance_of s moved) (λ balance.
    bind (bytes_of s to) (λ address. bind (consume s moved) (λ next.
      some (with_result (record next { sent = next.sent ++ (balance, address) ∷ [] }) none))))
run_command _ s = none

unfoldable pub run : List Command → Chain → Option Chain
unfolding run_command
run [] s = some s
run (c ∷ cs) s = bind (run_command c s) (λ next. run cs next)
