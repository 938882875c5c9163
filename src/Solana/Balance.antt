-- ===== src/Solana/Balance.antt =====
-- chain/solana/client.go and address.go: the balance of an address, and the address of a public key.
use crosschain_enhanced_by_a.Prelude.{
  ℕ, List, Option, Result, ok, err, ◌>>=◌, if◌then◌else◌, ◌==◌, length,
}
use crosschain_enhanced_by_a.Prelude.Int.{ℤ, pos}
use crosschain_enhanced_by_a.Prelude.Text.{Text, codes, contains, is_empty}
use crosschain_enhanced_by_a.Solana.{
  Key, Failure, Sol, or_fail, Item, token, single, item_config, find_associated_token_address,
  must_key,
}

-- What a node answers to a question for a balance: an error with its text, nil, or a value.
pub data Balance (A : Type 0) : Type 0 where
  failing : Text → Balance A
  nothing : Balance A
  amount : A → Balance A

-- The answers of a node, where `token_balance` has the amount as text.
pub record Balances : Type 0 where
  pub native_balance : Key → Balance ℕ
  pub token_balance : Key → Balance Text

abbrev pub native_amount : Balance ℕ → Result Failure ℤ
native_amount (failing message) = err Failure.node_failure
native_amount nothing = ok (pos 0)
native_amount (amount n) = ok (pos n)

-- `SetString` of math/big, in base 10, is an argument.
module _ (sol : Sol) (set_string : Text → Option ℤ) where
  -- `FetchNativeBalance`
  unfoldable pub fetch_native_balance : Balances → Text → Result Failure ℤ
  unfolding must_key
  fetch_native_balance node address =
      must_key sol address >>= λ k. native_amount (node.native_balance k)

  -- `NewAmountBlockchainFromStr`: a text that is no number is a nil pointer that is read.
  unfoldable pub new_amount_blockchain_from_str : Text → Result Failure ℤ
  new_amount_blockchain_from_str s = or_fail Failure.panic (set_string s)

  -- An account that is not found has the balance 0.
  unfoldable pub token_amount : Balance Text → Result Failure ℤ
  unfolding contains new_amount_blockchain_from_str
  token_amount (failing message) =
      if contains message (codes "could not find account")
      then ok (pos 0)
      else err Failure.node_failure
  token_amount nothing = ok (pos 0)
  token_amount (amount s) = new_amount_blockchain_from_str s

  -- `fetchContractBalance`
  unfoldable pub fetch_contract_balance : Balances → Text → Text → Result Failure ℤ
  unfolding find_associated_token_address must_key token_amount
  fetch_contract_balance node address contract = do
    ata_text ← find_associated_token_address sol address contract
    ata ← must_key sol ata_text
    token_amount (node.token_balance ata)

  -- `FetchBalanceForAsset`, and `FetchBalance` for the asset of the client
  unfoldable pub fetch_balance_for_asset : Balances → Text → Item → Result Failure ℤ
  unfolding item_config fetch_contract_balance fetch_native_balance
  fetch_balance_for_asset node address (single (token t)) =
      fetch_contract_balance node address t.contract
  fetch_balance_for_asset node address item = item_config item >>= λ c.
      if is_empty c.contract
      then fetch_native_balance node address
      else fetch_contract_balance node address c.contract

-- `GetAddressFromPublicKey`
unfoldable pub get_address_from_public_key : Sol → List ℕ → Result Failure Text
get_address_from_public_key sol bytes =
    if length bytes == 32 then ok (sol.base58 bytes) else err Failure.bad_key
