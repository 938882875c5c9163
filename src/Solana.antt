-- ===== src/Solana.antt =====
-- chain/solana: what the driver calls of solana-go and of base58, as an argument of the model, and the
-- types that its files share.
pub mod Builder
pub mod Tx
pub mod Laws
pub mod Client
pub mod Balance
pub mod ReadBack
pub mod TokenRead
use crosschain_enhanced_by_a.Prelude.{
  ℕ, ◌+◌, ◌%◌, ◌^◌, ◌≡◌, ◌≢◌, Bool, List, [], ◌∷◌, map, Option, none, some, Result, ok, err, ◌>>=◌,
  length,
}
use crosschain_enhanced_by_a.Prelude.Text.{Text}
use crosschain_enhanced_by_a.Asset.Config.{AssetConfig, TokenConfig}

-- A `solana.PublicKey`, as its bytes.
abbrev pub Key : Type 0
Key = List ℕ

-- The errors of the driver; `panic` stands for a panic of the program.
pub data Failure : Type 0 where
  panic bad_key bad_transaction not_token not_implemented not_initialized : Failure
  bad_message bad_signature node_failure no_blockhash no_transaction : Failure

-- `TxInput`, without the envelope.
pub record TxInput : Type 0 where
  pub recent_block_hash : List ℕ
  pub to_is_ata : Bool
  pub should_create_ata : Bool

-- The instructions that the driver builds.
pub data Instruction : Type 0 where
  -- `system.NewTransferInstruction(lamports, funding, recipient)`
  transfer : ℕ → Key → Key → Instruction
  -- `ata.NewCreateInstruction(payer, wallet, mint)`
  create_ata : Key → Key → Key → Instruction
  -- `token.NewTransferCheckedInstruction(amount, decimals, source, mint, destination, owner, {owner})`
  transfer_checked : ℕ → ℕ → Key → Key → Key → Key → Instruction
  -- `token.NewCloseAccountInstruction(account, destination, owner, nil)`
  close_account : Key → Key → Key → Instruction

-- The instructions that the driver reads, as the library decodes them.
pub data Decoded : Type 0 where
  -- the lamports, the funding account and the recipient
  system_transfer : ℕ → Key → Key → Decoded
  -- the amount, the mint, the destination and the owner
  token_checked : ℕ → Key → Key → Key → Decoded
  -- the amount, the destination and the owner
  token_transfer : ℕ → Key → Key → Decoded
  -- the lamports and the accounts
  vote_withdraw : ℕ → List Key → Decoded
  other : Decoded

-- solana-go and base58. A returned error is `none`.
pub record Sol : Type 1 where
  pub Transaction : Type 0
  pub Compiled : Type 0
  pub key_of_base58 : Text → Option Key
  pub base58 : List ℕ → Text
  pub signature_of_base58 : Text → Option (List ℕ)
  pub find_ata : Key → Key → Option Key
  pub system_id : Key
  pub token_id : Key
  pub vote_id : Key
  -- `solana.NewTransaction`, from the instructions, the block hash and the payer
  pub new_transaction : List Instruction → List ℕ → Key → Option Transaction
  pub instructions_of : Transaction → List Compiled
  pub program_of : Transaction → Compiled → Option Key
  pub accounts_of : Transaction → Compiled → Option (List Key)
  pub decode_system : List Key → Compiled → Option Decoded
  pub decode_token : List Key → Compiled → Option Decoded
  pub decode_vote : List Key → Compiled → Option Decoded
  pub signatures_of : Transaction → List (List ℕ)
  pub with_signatures : Transaction → List (List ℕ) → Transaction
  pub message_bytes : Transaction → Option (List ℕ)
  pub marshal_binary : Transaction → Option (List ℕ)
  pub block_hash_of : Transaction → Text

-- `ITask`, as far as it is read here; a task has its code, and its source and destination assets may
-- be nil.
pub data SingleAsset : Type 0 where
  native : AssetConfig → SingleAsset
  token : TokenConfig → SingleAsset

pub data Item : Type 0 where
  single : SingleAsset → Item
  task : Text → Option SingleAsset → Option SingleAsset → Item

abbrev pub or_fail : {A : Type 0} → Failure → Option A → Result Failure A
or_fail e none = err e
or_fail e (some a) = ok a

-- `GetAssetConfig`
abbrev pub single_config : SingleAsset → AssetConfig
single_config (native c) = c
single_config (token t) = t.base

unfoldable pub item_config : Item → Result Failure AssetConfig
item_config (single a) = ok (single_config a)
item_config (task code src dst) = or_fail panic src >>= λ a. ok (single_config a)

module _ (sol : Sol) where
  -- `PublicKeyFromBase58`
  unfoldable pub key_of : Text → Result Failure Key
  key_of address = or_fail bad_key (sol.key_of_base58 address)

  -- `FindAssociatedTokenAddress` of client.go
  unfoldable pub find_associated_token_address : Text → Text → Result Failure Text
  unfolding key_of
  find_associated_token_address address contract = do
    wallet ← key_of address
    mint ← key_of contract
    ata ← or_fail bad_key (sol.find_ata wallet mint)
    ok (sol.base58 ata)

  -- `MustPublicKeyFromBase58`
  unfoldable pub must_key : Text → Result Failure Key
  must_key address = or_fail panic (sol.key_of_base58 address)
