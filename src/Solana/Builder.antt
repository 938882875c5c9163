-- ===== src/Solana/Builder.antt =====
-- chain/solana/builder.go: the transactions of the driver, as the instructions that they hold.
use crosschain_enhanced_by_a.Prelude.{
  ℕ, ◌+◌, ◌*◌, ◌%◌, Bool, true, List, [], ◌∷◌, ◌++◌, Option, none, some, Result, ok, err, ◌>>=◌,
  if◌then◌else◌,
}
use crosschain_enhanced_by_a.Prelude.Int.{ℤ, pos, negsuc}
use crosschain_enhanced_by_a.Prelude.Text.{Text, codes, eq_text}
use crosschain_enhanced_by_a.Asset.Config.{AssetConfig}
use crosschain_enhanced_by_a.Solana.{
  Key, Failure, TxInput, Instruction, transfer, create_ata, transfer_checked, close_account, Sol,
  SingleAsset, native, token, Item, single, task, or_fail, item_config, single_config, key_of,
  find_associated_token_address, must_key,
}
use crosschain_enhanced_by_a.Solana.Tx.{Tx}
use crosschain_enhanced_by_a.Bitcoin.Tx.{uint64}

-- `uint8(asset.Decimals)`
unfoldable pub uint8_of : ℤ → ℕ
uint8_of (pos n) = n % 256
uint8_of (negsuc n) = (255 + 255 * n) % 256

-- A text, or another where it is empty.
abbrev pub unless_empty : Text → Text → Text
unless_empty [] other = other
unless_empty (x ∷ s) other = x ∷ s

-- The contract of a token transfer: of the `AssetConfig`, or where that is empty of the token.
unfoldable pub transfer_contract : Item → AssetConfig → Text
transfer_contract (single (token t)) asset = unless_empty asset.contract t.contract
transfer_contract _ asset = asset.contract

-- The test at the start of `NewTokenTransfer`.
unfoldable pub is_token_asset : Item → AssetConfig → Bool
unfolding eq_text
is_token_asset (single (token t)) asset = true
is_token_asset _ asset = eq_text asset.asset_type (codes "token")

module _ (sol : Sol) where
  abbrev pub unsigned : sol.Transaction → Tx sol
  unsigned t = record {
    sol_tx = some t;
    parsed_block_hash = none;
    associated_token_account = none;
    parsed_transfer = none;
  }

  -- `buildSolanaTx`
  unfoldable pub build_solana_tx : List Instruction → Key → TxInput → Result Failure (Tx sol)
  build_solana_tx instructions payer input =
      or_fail Failure.bad_transaction
        (sol.new_transaction instructions input.recent_block_hash payer)
      >>= λ t. ok (unsigned t)

  -- `NewNativeTransfer`
  unfoldable pub new_native_transfer : Text → Text → ℤ → TxInput → Result Failure (Tx sol)
  unfolding build_solana_tx key_of uint64
  new_native_transfer from to amount input = do
    account_from ← key_of sol from
    account_to ← key_of sol to
    build_solana_tx (transfer (uint64 amount) account_from account_to ∷ []) account_from input

  -- The account that receives tokens.
  unfoldable pub token_destination : Text → Text → Key → TxInput → Result Failure Key
  unfolding find_associated_token_address must_key
  token_destination to contract account_to input =
      let found = find_associated_token_address sol to contract >>= must_key sol in
      if input.to_is_ata then ok account_to else found

  -- The instruction that creates the account of the recipient, where it is asked for.
  unfoldable pub creation : Key → Key → Key → TxInput → List Instruction
  creation payer wallet mint input =
      if input.should_create_ata then create_ata payer wallet mint ∷ [] else []

  -- What follows the test of the asset in `NewTokenTransfer`.
  unfoldable pub token_transfer_of : Text → ℕ → Text → Text → ℤ → TxInput → Result Failure (Tx sol)
  unfolding key_of find_associated_token_address must_key token_destination creation build_solana_tx
      uint64
  token_transfer_of contract decimals from to amount input = do
    account_from ← key_of sol from
    account_contract ← key_of sol contract
    account_to ← key_of sol to
    ata_from_text ← find_associated_token_address sol from contract
    ata_from ← must_key sol ata_from_text
    ata_to ← token_destination to contract account_to input
    build_solana_tx
        (creation account_from account_to account_contract input
          ++ (transfer_checked (uint64 amount) decimals ata_from account_contract ata_to
                account_from
              ∷ []))
        account_from input

  -- `NewTokenTransfer`
  unfoldable pub new_token_transfer : Item → Text → Text → ℤ → TxInput → Result Failure (Tx sol)
  unfolding item_config is_token_asset transfer_contract token_transfer_of uint8_of
  new_token_transfer item from to amount input = item_config item >>= λ asset.
      if is_token_asset item asset
      then token_transfer_of (transfer_contract item asset) (uint8_of asset.decimals) from to amount
          input
      else err Failure.not_token

  -- `BuildWrapTx`, on the destination asset of a task
  unfoldable pub build_wrap_tx : Option SingleAsset → Text → ℤ → TxInput → Result Failure (Tx sol)
  unfolding key_of find_associated_token_address must_key build_solana_tx uint64
  build_wrap_tx dst from amount input = do
    asset ← or_fail Failure.panic dst
    account_from ← key_of sol from
    account_contract ← key_of sol (single_config asset).contract
    ata_from_text ← find_associated_token_address sol from (single_config asset).contract
    ata_from ← must_key sol ata_from_text
    build_solana_tx
        (create_ata account_from account_from account_contract
          ∷ transfer (uint64 amount) account_from ata_from
          ∷ [])
        account_from input

  -- `BuildUnwrapEverythingTx`, on the source asset of a task
  unfoldable pub build_unwrap_everything_tx :
      Option SingleAsset → Text → TxInput → Result Failure (Tx sol)
  unfolding key_of find_associated_token_address must_key build_solana_tx
  build_unwrap_everything_tx src from input = do
    asset ← or_fail Failure.panic src
    account_from ← key_of sol from
    ata_from_text ← find_associated_token_address sol from (single_config asset).contract
    ata_from ← must_key sol ata_from_text
    build_solana_tx (close_account ata_from account_from account_from ∷ []) account_from input

  -- `NewTask`
  unfoldable pub new_task :
      Text → Option SingleAsset → Option SingleAsset → Text → ℤ → TxInput → Result Failure (Tx sol)
  unfolding eq_text build_wrap_tx build_unwrap_everything_tx
  new_task code src dst from amount input =
      if eq_text code (codes "WrapTx")
      then build_wrap_tx dst from amount input
      else if eq_text code (codes "UnwrapEverythingTx")
      then build_unwrap_everything_tx src from input
      else err Failure.not_implemented

  -- `NewTransfer`
  unfoldable pub new_transfer : Item → Text → Text → ℤ → TxInput → Result Failure (Tx sol)
  unfolding eq_text new_task new_native_transfer new_token_transfer
  new_transfer (task code src dst) from to amount input = new_task code src dst from amount input
  new_transfer (single (token t)) from to amount input =
      if eq_text t.asset_type (codes "native")
      then new_native_transfer from to amount input
      else new_token_transfer (single (token t)) from to amount input
  new_transfer (single (native c)) from to amount input = new_native_transfer from to amount input
