-- ===== src/Solana/Client.antt =====
-- chain/solana/client.go: `FetchTxInput` and `FetchTxInfo`, over what the node answers. Two calls of
-- the node may differ, so the accounts are given by the number of the call.
pub mod Fresh
pub mod Sent
use crosschain_enhanced_by_a.Prelude.{
  ℕ, ◌<◌, Bool, true, false, not, List, [], ◌∷◌, ◌++◌, Option, none, some, Result, ok, err, ◌>>=◌,
  if◌then◌else◌, ltb,
}
use crosschain_enhanced_by_a.Prelude.Int.{ℤ, pos, ◌-ℤ◌}
use crosschain_enhanced_by_a.Prelude.Text.{Text, codes, eq_text, is_empty}
use crosschain_enhanced_by_a.Asset.Config.{AssetConfig, TokenConfig}
use crosschain_enhanced_by_a.Bitcoin.Tx.{int64}
use crosschain_enhanced_by_a.Solana.{
  Key, Failure, TxInput, Sol, Item, SingleAsset, native, token, single, task, or_fail, item_config,
  key_of, find_associated_token_address, must_key,
}
use crosschain_enhanced_by_a.Solana.Tx.{
  Tx, TokenAccount, parse_transfer, set_associated_token_account, from, to, to_alt, amount,
  contract_address,
}
use crosschain_enhanced_by_a.Solana.Builder.{unsigned}

-- An account of the node: its owner, and what it decodes to as an account of tokens.
pub record Account : Type 0 where
  pub owner : Key
  pub token_account : Option TokenAccount

-- The system program, which owns the accounts of wallets.
abbrev pub system_address : Text
system_address = codes "11111111111111111111111111111111"

-- The contract of a transfer, where it is one of tokens.
unfoldable pub input_contract : Item → Result Failure (Option Text)
unfolding item_config
input_contract (single (token t)) = ok (some t.contract)
input_contract item =
    item_config item >>= λ c. ok (if is_empty c.contract then none else some c.contract)

abbrev pub is_missing : Option Account → Bool
is_missing none = true
is_missing (some a) = false

module _ (sol : Sol) where
  -- What a node answers to `FetchTxInput`; a returned error is `none`, and `some none` is nil.
  pub record Node : Type 0 where
    pub recent_block_hash : Option (Option (List ℕ))
    pub account_info : ℕ → Key → Option Account

  abbrev pub known_hash : Option (Option (List ℕ)) → Result Failure (List ℕ)
  known_hash none = err Failure.node_failure
  known_hash (some none) = err Failure.no_blockhash
  known_hash (some (some h)) = ok h

  -- The recipient is taken for an account of tokens unless it belongs to the system program.
  unfoldable pub is_ata : Option Account → Bool
  unfolding eq_text
  is_ata none = true
  is_ata (some a) = not (eq_text (sol.base58 a.owner) system_address)

  -- The account whose existence is asked for.
  unfoldable pub account_asked : Bool → Text → Text → Key → Result Failure Key
  unfolding find_associated_token_address must_key
  account_asked ata to contract account_to =
      let found = find_associated_token_address sol to contract >>= must_key sol in
      if ata then ok account_to else found

  -- The part of `FetchTxInput` for tokens.
  unfoldable pub token_input : Node → List ℕ → Text → Text → Result Failure TxInput
  unfolding key_of is_ata account_asked
  token_input node recent contract to = do
    account_to ← key_of sol to
    ata_to ← account_asked (is_ata (node.account_info 0 account_to)) to contract account_to
    ok (record {
      recent_block_hash = recent;
      to_is_ata = is_ata (node.account_info 0 account_to);
      should_create_ata = is_missing (node.account_info 1 ata_to);
    })

  abbrev pub input_for : Node → List ℕ → Text → Option Text → Result Failure TxInput
  input_for node recent to none =
      ok (record { recent_block_hash = recent; to_is_ata = false; should_create_ata = false })
  input_for node recent to (some contract) = token_input node recent contract to

  -- `FetchTxInput`
  unfoldable pub fetch_tx_input : Node → Item → Text → Result Failure TxInput
  unfolding input_contract token_input
  fetch_tx_input node item to = do
    recent ← known_hash node.recent_block_hash
    contract ← input_contract item
    input_for node recent to contract

  -- What a node answers to `GetTransaction`: the transaction as it decodes, where the answer has one.
  pub record Response : Type 0 where
    pub decoded : Option (Option sol.Transaction)
    pub slot : ℕ
    pub block_time : Option ℤ
    pub fee : Option ℕ

  -- `TxInfo`, as far as it is set.
  pub record TxInfo : Type 0 where
    pub tx_id : Text
    pub explorer_url : Text
    pub from_address : Text
    pub to_address : Text
    pub to_alt_address : Text
    pub contract : Text
    pub value : ℤ
    pub paid : ℕ
    pub block_index : ℤ
    pub block_time : ℤ
    pub confirmations : ℤ

  -- The transaction of an answer.
  abbrev pub transaction_of : Option (Option sol.Transaction) → Result Failure sol.Transaction
  transaction_of none = err Failure.no_transaction
  transaction_of (some none) = err Failure.bad_transaction
  transaction_of (some (some t)) = ok t

  abbrev pub account_of : Option Account → Option TokenAccount
  account_of none = none
  account_of (some a) = a.token_account

  -- `getParsedAccountInfo`, whose error is ignored; a text that is no key is a panic.
  unfoldable pub get_parsed_account_info :
      (Key → Option Account) → Text → Result Failure (Option TokenAccount)
  unfolding must_key
  get_parsed_account_info account_info ata =
      must_key sol ata >>= λ k. ok (account_of (account_info k))

  -- The owner of the account of tokens is looked up before the transfer is read.
  unfoldable pub with_owner : (Key → Option Account) → Tx sol → Result Failure (Tx sol)
  unfolding get_parsed_account_info set_associated_token_account to_alt
  with_owner account_info tx =
      let found = get_parsed_account_info account_info (to_alt sol tx) in
      if is_empty (to_alt sol tx)
      then ok tx
      else found >>= λ a. ok (set_associated_token_account sol tx a)

  abbrev pub or_zero : Option ℤ → ℤ
  or_zero none = pos 0
  or_zero (some t) = t

  abbrev pub confirmations_of : ℤ → Option ℕ → ℤ
  confirmations_of index none = pos 0
  confirmations_of index (some recent) = int64 (int64 (pos recent) -ℤ index)

  -- The fields of a block, which are set where the slot is not 0.
  unfoldable pub in_block : Response → Option ℕ → TxInfo → TxInfo
  unfolding int64
  in_block r recent info =
      if ltb 0 r.slot
      then record info {
        block_index = int64 (pos r.slot);
        block_time = or_zero r.block_time;
        confirmations = confirmations_of (int64 (pos r.slot)) recent;
      }
      else info

  -- The fields of the transfer.
  unfoldable pub described : Text → Text → ℕ → Tx sol → Result Failure TxInfo
  unfolding from to to_alt amount contract_address
  described tx_id explorer_url fee tx = do
    sender ← from sol tx
    recipient ← to sol tx
    ok (record {
      tx_id = tx_id;
      explorer_url = explorer_url;
      from_address = sender;
      to_address = recipient;
      to_alt_address = to_alt sol tx;
      contract = contract_address sol tx;
      value = amount sol tx;
      paid = fee;
      block_index = pos 0;
      block_time = pos 0;
      confirmations = pos 0;
    })

  -- `FetchTxInfo`: the answers to `GetTransaction` by signature, the latest slot, the accounts, and the
  -- configuration of the chain.
  unfoldable pub fetch_tx_info :
      (List ℕ → Option Response)
      → Option ℕ
      → (Key → Option Account)
      → AssetConfig
      → Text
      → Result Failure TxInfo
  unfolding parse_transfer with_owner described in_block
  fetch_tx_info get_transaction recent account_info chain tx_hash = do
    signature ← or_fail Failure.bad_signature (sol.signature_of_base58 tx_hash)
    r ← or_fail Failure.node_failure (get_transaction signature)
    t ← transaction_of r.decoded
    fee ← or_fail Failure.panic r.fee
    tx ← with_owner account_info (parse_transfer sol (unsigned sol t))
    info ←
        described tx_hash
          (chain.explorer_url ++ codes "/tx/" ++ tx_hash ++ codes "?cluster=" ++ chain.net) fee tx
    ok (in_block r recent info)
