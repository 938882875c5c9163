-- ===== src/Solana/Tx.antt =====
-- chain/solana/tx.go: a transaction, its signatures, and the transfer that is read off it.
pub mod Signatures
use crosschain_enhanced_by_a.Prelude.{
  ℕ, Bool, true, false, List, [], ◌∷◌, Option, none, some, Result, ok, err, ◌>>=◌, if◌then◌else◌,
  ◌==◌, length,
}
use crosschain_enhanced_by_a.Prelude.Int.{ℤ, pos}
use crosschain_enhanced_by_a.Prelude.Text.{Text, eq_text}
use crosschain_enhanced_by_a.Solana.{
  Key, Failure, Decoded, system_transfer, token_checked, token_transfer, vote_withdraw, Sol,
  or_fail,
}

-- `token.Account`, as far as it is read.
pub record TokenAccount : Type 0 where
  pub mint : Key
  pub owner : Key

-- The type assertions of the four searches.
abbrev pub as_system_transfer : Decoded → Option Decoded
as_system_transfer (system_transfer n a b) = some (system_transfer n a b)
as_system_transfer _ = none

abbrev pub as_transfer_checked : Decoded → Option Decoded
as_transfer_checked (token_checked n a b c) = some (token_checked n a b c)
as_transfer_checked _ = none

abbrev pub as_token_transfer : Decoded → Option Decoded
as_token_transfer (token_transfer n a b) = some (token_transfer n a b)
as_token_transfer _ = none

abbrev pub as_vote_withdraw : Decoded → Option Decoded
as_vote_withdraw (vote_withdraw n ks) = some (vote_withdraw n ks)
as_vote_withdraw _ = none

abbrev pub then_try : {A B : Type 0} → Option A → (A → Option B) → Option B
then_try none next = none
then_try (some a) next = next a

abbrev pub or_later : Option Decoded → Option Decoded → Option Decoded
or_later none later = later
or_later (some d) later = some d

-- The first search that finds something; otherwise the transfer stays as it is.
abbrev pub first_of : List (Option Decoded) → Option Decoded → Option Decoded
first_of [] old = old
first_of (none ∷ rest) old = first_of rest old
first_of (some d ∷ rest) old = some d

abbrev pub amount_of : Option Decoded → ℕ
amount_of (some (system_transfer lamports funding recipient)) = lamports
amount_of (some (token_checked amount mint destination owner)) = amount
amount_of (some (token_transfer amount destination owner)) = amount
amount_of (some (vote_withdraw lamports accounts)) = lamports
amount_of _ = 0

module _ (sol : Sol) where
  -- `Tx`; of `ParsedSolTx` only the block hash is read.
  pub record Tx : Type 0 where
    pub sol_tx : Option sol.Transaction
    pub parsed_block_hash : Option Text
    pub associated_token_account : Option TokenAccount
    pub parsed_transfer : Option Decoded

  abbrev pub first_signature : List (List ℕ) → Text
  first_signature [] = []
  first_signature (s ∷ rest) = sol.base58 s

  -- `Hash`
  unfoldable pub hash : Tx → Text
  hash tx = elim tx.sol_tx [ none ↦ [] | some t ↦ first_signature (sol.signatures_of t) ]

  -- `Sighashes`
  unfoldable pub sighashes : Tx → Result Failure (List (List ℕ))
  sighashes tx = do
    t ← or_fail Failure.not_initialized tx.sol_tx
    message ← or_fail Failure.bad_message (sol.message_bytes t)
    ok (message ∷ [])

  -- The loop over the signatures.
  unfoldable pub sol_signatures : List (List ℕ) → Result Failure (List (List ℕ))
  sol_signatures [] = ok []
  sol_signatures (s ∷ rest) =
      let later = sol_signatures rest >>= (λ more. ok (s ∷ more)) in
      if length s == 64 then later else err Failure.bad_signature

  abbrev pub signed_by : Tx → sol.Transaction → Result Failure (List (List ℕ)) → Tx × Option Failure
  signed_by tx t (err e) = (tx, some e)
  signed_by tx t (ok ss) = (record tx { sol_tx = some (sol.with_signatures t ss) }, none)

  -- `AddSignatures`: the transaction after the call, and the error.
  unfoldable pub add_signatures : Tx → List (List ℕ) → Tx × Option Failure
  unfolding sol_signatures
  add_signatures tx signatures = elim tx.sol_tx [
    | none ↦ (tx, some Failure.not_initialized)
    | some t ↦ signed_by tx t (sol_signatures signatures)
  ]

  -- `Serialize`
  unfoldable pub serialize : Tx → Result Failure (List ℕ)
  serialize tx = do
    t ← or_fail Failure.not_initialized tx.sol_tx
    or_fail Failure.bad_transaction (sol.marshal_binary t)

  -- `RecentBlockhash`
  unfoldable pub recent_blockhash : Tx → Text
  recent_blockhash tx = elim tx.parsed_block_hash [
    | some h ↦ h
    | none ↦ elim tx.sol_tx [ none ↦ [] | some t ↦ sol.block_hash_of t ]
  ]

  module _ (program : Key) (decode : List Key → sol.Compiled → Option Decoded)
      (cast : Decoded → Option Decoded) where
    -- One round of a search: none stands for `continue`.
    unfoldable pub read_instruction : sol.Transaction → sol.Compiled → Option Decoded
    unfolding eq_text
    read_instruction t i = then_try (sol.program_of t i) (λ p.
        if eq_text p program
        then then_try (sol.accounts_of t i) (λ accounts. then_try (decode accounts i) cast)
        else none)

    -- A search over the instructions of a transaction.
    unfoldable pub search : sol.Transaction → List sol.Compiled → Option Decoded
    unfolding read_instruction
    search t [] = none
    search t (i ∷ is) = or_later (read_instruction t i) (search t is)

    unfoldable pub find_instruction : Option sol.Transaction → Option Decoded
    unfolding search
    find_instruction none = none
    find_instruction (some t) = search t (sol.instructions_of t)

  -- `getSystemTransfer`, `getTokenTransferChecked`, `getTokenTransfer` and `getVoteWithdraw`
  unfoldable pub get_system_transfer : Tx → Option Decoded
  unfolding find_instruction
  get_system_transfer tx =
      find_instruction sol.system_id sol.decode_system as_system_transfer tx.sol_tx

  unfoldable pub get_token_transfer_checked : Tx → Option Decoded
  unfolding find_instruction
  get_token_transfer_checked tx =
      find_instruction sol.token_id sol.decode_token as_transfer_checked tx.sol_tx

  unfoldable pub get_token_transfer : Tx → Option Decoded
  unfolding find_instruction
  get_token_transfer tx = find_instruction sol.token_id sol.decode_token as_token_transfer tx.sol_tx

  unfoldable pub get_vote_withdraw : Tx → Option Decoded
  unfolding find_instruction
  get_vote_withdraw tx = find_instruction sol.vote_id sol.decode_vote as_vote_withdraw tx.sol_tx

  -- `ParseTransfer`
  unfoldable pub parse_transfer : Tx → Tx
  unfolding get_system_transfer get_token_transfer_checked get_token_transfer get_vote_withdraw
  parse_transfer tx = record tx {
    parsed_transfer =
        first_of
          (get_system_transfer tx
            ∷ get_token_transfer_checked tx
            ∷ get_token_transfer tx
            ∷ get_vote_withdraw tx
            ∷ [])
          tx.parsed_transfer;
  }

  -- `SetAssociatedTokenAccount`
  unfoldable pub set_associated_token_account : Tx → Option TokenAccount → Tx
  set_associated_token_account tx ata = record tx { associated_token_account = ata }

  -- An account of a withdrawal, by its position.
  abbrev pub account_at : List Key → ℕ → Result Failure Text
  account_at [] n = err Failure.panic
  account_at (k ∷ ks) ℕ.zero = ok (sol.base58 k)
  account_at (k ∷ ks) (ℕ.suc n) = account_at ks n

  -- `From`
  abbrev pub sender_of : Option Decoded → Result Failure Text
  sender_of (some (system_transfer lamports funding recipient)) = ok (sol.base58 funding)
  sender_of (some (token_checked amount mint destination owner)) = ok (sol.base58 owner)
  sender_of (some (token_transfer amount destination owner)) = ok (sol.base58 owner)
  sender_of (some (vote_withdraw lamports accounts)) = account_at accounts 2
  sender_of _ = ok []

  unfoldable pub from : Tx → Result Failure Text
  from tx = sender_of tx.parsed_transfer

  -- `To`
  abbrev pub recipient_of : Option Decoded → Result Failure Text
  recipient_of (some (system_transfer lamports funding recipient)) = ok (sol.base58 recipient)
  recipient_of (some (vote_withdraw lamports accounts)) = account_at accounts 1
  recipient_of _ = ok []

  unfoldable pub to : Tx → Result Failure Text
  to tx = elim tx.associated_token_account [
    | some ata ↦ ok (sol.base58 ata.owner)
    | none ↦ recipient_of tx.parsed_transfer
  ]

  -- `ToAlt`
  abbrev pub token_account_of : Option Decoded → Text
  token_account_of (some (token_checked amount mint destination owner)) = sol.base58 destination
  token_account_of (some (token_transfer amount destination owner)) = sol.base58 destination
  token_account_of _ = []

  unfoldable pub to_alt : Tx → Text
  to_alt tx = token_account_of tx.parsed_transfer

  -- `Amount`
  unfoldable pub amount : Tx → ℤ
  amount tx = pos (amount_of tx.parsed_transfer)

  -- `ContractAddress`
  abbrev pub mint_of : Option Decoded → Text
  mint_of (some (token_checked amount mint destination owner)) = sol.base58 mint
  mint_of _ = []

  unfoldable pub contract_address : Tx → Text
  contract_address tx = elim tx.associated_token_account [
    | some ata ↦ sol.base58 ata.mint
    | none ↦ mint_of tx.parsed_transfer
  ]
