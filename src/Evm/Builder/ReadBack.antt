-- ===== src/Evm/Builder/ReadBack.antt =====
-- chain/evm/builder.go, chain/evm/tx.go: what the methods of a transaction read off one that the
-- builder made.
use crosschain_enhanced_by_a.Prelude.{
  ℕ, ◌^◌, ◌<◌, Bool, true, false, List, [], ◌∷◌, ◌++◌, some, ok, >>=-eq-ok, ok_injective, ◌≡◌, refl,
  sym, ap, subst, ◌∙◌, arith, append_assoc, append-nil, ltb, length, length-append,
}
use crosschain_enhanced_by_a.Prelude.Int.{ℤ, pos}
use crosschain_enhanced_by_a.Prelude.Text.{Text, codes, eq_text}
use crosschain_enhanced_by_a.Prelude.Bytes.{left_pad, length-left_pad, hex_encode, hex_digit}
use crosschain_enhanced_by_a.Asset.Config.{AssetConfig}
use crosschain_enhanced_by_a.Evm.{Eth, EthLaws, TxInput}
use crosschain_enhanced_by_a.Evm.Address.{hex_to_address, trim_prefixes}
use crosschain_enhanced_by_a.Evm.Item.{item_asset_config, item_native_asset}
use crosschain_enhanced_by_a.Evm.Tx.{
  Tx, Endpoint, ParsedTxInfo, ensure_0x, address_at, amount_at, is_contract, to_string, from,
  contract_address, is_erc20_transfer, parse_erc20_transfer_tx, amount,
}
use crosschain_enhanced_by_a.Evm.Tx
use crosschain_enhanced_by_a.Evm.Builder.{
  TxBuilder, padded_amount, method_id, build_erc20_payload, eth_transaction,
  build_evm_tx_with_payload, native_gas_limit, token_gas_limit, new_native_transfer,
  new_token_transfer,
}
use crosschain_enhanced_by_a.Evm.Builder.Words.{
  length-padded_amount, amount_at-padded_amount, address_at-left_pad,
}

abbrev pub transfer_id : List ℕ
transfer_id = 0xa9 ∷ 0x05 ∷ 0x9c ∷ 0xbb ∷ []

-- The payload of a transfer of `n` tokens to an address.
abbrev pub erc20_payload : List ℕ → ℕ → List ℕ
erc20_payload address n = transfer_id ++ (left_pad 32 address ++ padded_amount (pos n))

module _ (address : List ℕ) (n : ℕ) (size : length address ≡ 20) (small : n < 256 ^ 32) where
  pub erc20-is_transfer : is_erc20_transfer (erc20_payload address n) ≡ true
  unfolding is_erc20_transfer eq_text hex_encode hex_digit
  erc20-is_transfer =
      let words : length (left_pad 32 address ++ padded_amount (pos n)) ≡ 64 = omega (
        arith,
        length-append (left_pad 32 address) (padded_amount (pos n)),
        length-padded_amount n small,
        length-left_pad 32 address (omega (arith, size)),
      ) in
      rw (words) refl

  pub erc20-amount : amount_at 36 (erc20_payload address n) ≡ ok (pos n)
  erc20-amount =
      let start = transfer_id ++ left_pad 32 address in
      let filled : length start ≡ 36 =
        omega (arith, length-left_pad 32 address (omega (arith, size))) in
      let same : start ++ (padded_amount (pos n) ++ []) ≡ erc20_payload address n =
        ap (λ l. start ++ l) (append-nil (padded_amount (pos n)))
        ∙ append_assoc transfer_id (left_pad 32 address) (padded_amount (pos n)) in
      subst (λ p. amount_at 36 p ≡ ok (pos n)) same
        (amount_at-padded_amount n 36 start [] small filled)

module _ (eth : Eth) where
  -- This payload, recipient and value.
  abbrev pub Carries : eth.Transaction → List ℕ → List ℕ → ℤ → Type 0
  Carries t payload address value =
      (eth.data_of t ≡ payload) × (eth.to_of t ≡ some address) × (eth.value_of t ≡ value)

  abbrev pub with_signer : eth.Transaction → eth.Signer → Tx eth
  with_signer t signer = record { eth_tx = some t; signer = some signer }

  pub to_string-some :
      (t : eth.Transaction) (address : List ℕ)
      → eth.to_of t ≡ some address
      → to_string eth t ≡ ok (eth.address_string address)
  unfolding to_string
  to_string-some t address e = rw (to_string, e) refl

  pub contract_address-recipient :
      (t : eth.Transaction) (signer : eth.Signer) (contract : List ℕ)
      → ltb 0 (length (eth.data_of t)) ≡ true
      → eth.to_of t ≡ some contract
      → contract_address eth (with_signer t signer) ≡ ok (eth.address_string contract)
  unfolding contract_address
  contract_address-recipient t signer contract here e =
      rw (contract_address, here, to_string-some t contract e) refl

  -- What `To`, `Amount` and `ContractAddress` give for a transaction.
  abbrev pub Reads : Tx eth → Text → ℤ → Text → Type 0
  Reads tx recipient value contract =
      (Tx.to eth tx ≡ ok recipient)
      × (amount eth tx ≡ ok value)
      × (contract_address eth tx ≡ ok contract)

  token-Reads :
      (t : eth.Transaction) (signer : eth.Signer) (address contract : List ℕ) (n : ℕ)
      → length address ≡ 20
      → n < 256 ^ 32
      → Carries t (erc20_payload address n) contract (pos 0)
      → Reads
          (with_signer t signer)
          (ensure_0x (eth.address_string address))
          (pos n)
          (eth.address_string contract)
  unfolding Tx.to amount
  token-Reads t signer address contract n size small carried =
      let named = to_string-some t contract carried.1 in
      let here : ltb 0 (length (eth.data_of t)) ≡ true = rw (carried.0) ground arith in
      let is = erc20-is_transfer address n size small in
      let reads : address_at eth 4 (erc20_payload address n)
          ≡ ok (ensure_0x (eth.address_string address)) =
        address_at-left_pad eth address 4 transfer_id (padded_amount (pos n)) size refl in
      let value = erc20-amount address n size small in
      (
        rw (here, carried.0, is, reads, value, named) refl,
        rw (amount, here, carried.0, is, reads, value, named) refl,
        contract_address-recipient t signer contract here carried.1,
      )

  native-Reads :
      (t : eth.Transaction) (signer : eth.Signer) (address : List ℕ) (value : ℤ)
      → Carries t [] address value
      → Reads (with_signer t signer) (eth.address_string address) value []
  unfolding Tx.to amount contract_address
  native-Reads t signer address value (payload, recipient, worth) =
      ground (arith, payload, recipient, worth)

module _ (eth : Eth) (laws : EthLaws eth) where
  data-eth_transaction :
      (legacy : Bool) (chain_id : ℤ) (address : List ℕ) (value : ℤ) (payload : List ℕ)
      (input : TxInput)
      → (eth.data_of (eth_transaction eth legacy chain_id address value payload input) ≡ payload)
        × (eth.to_of (eth_transaction eth legacy chain_id address value payload input)
            ≡ some address)
        × (eth.value_of (eth_transaction eth legacy chain_id address value payload input) ≡ value)
  unfolding eth_transaction
  data-eth_transaction true chain_id address value payload input =
      (laws.data_legacy _, laws.to_legacy _, laws.value_legacy _)
  data-eth_transaction false chain_id address value payload input =
      (laws.data_dynamic _, laws.to_dynamic _, laws.value_dynamic _)

  pub build-Carries :
      (builder : TxBuilder) (to : Text) (value : ℤ) (payload : List ℕ) (input : TxInput)
      {tx : Tx eth}
      → build_evm_tx_with_payload eth builder to value payload input ≡ ok tx
      → (t : eth.Transaction) × (signer : eth.Signer) × (with_signer eth t signer ≡ tx)
        × Carries eth t payload (eth.hex_to_address (trim_prefixes to)) value
  unfolding build_evm_tx_with_payload hex_to_address
  build-Carries builder to value payload input built =
      let (config, _, made) = >>=-eq-ok (item_native_asset builder.asset) _ built in
      (
        _,
        _,
        ok_injective made,
        data-eth_transaction builder.legacy config.chain_id (eth.hex_to_address (trim_prefixes to))
            value payload input,
      )

  token-built :
      (builder : TxBuilder) (to : Text) (n : ℕ) (input : TxInput) {asset : AssetConfig}
      → method_id eth (codes "transfer(address,uint256)") ≡ transfer_id
      → item_asset_config builder.asset ≡ ok asset
      → (new_token_transfer eth builder to (pos n) input).1
        ≡ build_evm_tx_with_payload eth builder asset.contract
            (pos 0)
            (erc20_payload (eth.hex_to_address (trim_prefixes to)) n)
            (record input { gas_limit = token_gas_limit asset })
  unfolding new_token_transfer build_erc20_payload hex_to_address
  token-built builder to n input method configured =
      rw (new_token_transfer, configured, method) refl

  native-built :
      (builder : TxBuilder) (to : Text) (value : ℤ) (input : TxInput) {asset : AssetConfig}
      → item_asset_config builder.asset ≡ ok asset
      → (new_native_transfer eth builder to value input).1
        ≡ build_evm_tx_with_payload eth builder to value []
            (record input { gas_limit = native_gas_limit asset })
  unfolding new_native_transfer
  native-built builder to value input configured = rw (new_native_transfer, configured) refl

  -- A token transfer that is built, of less than 2 ^ 256 tokens, reads back as what was asked for: its
  -- recipient is the address of the text `to`, its amount is the one given, and its contract is that of
  -- the asset, where the method of the payload is a9059cbb.
  pub new_token_transfer-Reads :
      (builder : TxBuilder) (to : Text) (n : ℕ) (input : TxInput) {asset : AssetConfig}
      {tx : Tx eth}
      → n < 256 ^ 32
      → method_id eth (codes "transfer(address,uint256)") ≡ transfer_id
      → item_asset_config builder.asset ≡ ok asset
      → (new_token_transfer eth builder to (pos n) input).1 ≡ ok tx
      → Reads eth tx
          (ensure_0x (eth.address_string (eth.hex_to_address (trim_prefixes to))))
          (pos n)
          (eth.address_string (eth.hex_to_address (trim_prefixes asset.contract)))
  new_token_transfer-Reads builder to n input {asset} small method configured built =
      let (t, signer, made, carried) =
        build-Carries builder asset.contract (pos 0)
          (erc20_payload (eth.hex_to_address (trim_prefixes to)) n) _
          (sym (token-built builder to n input method configured) ∙ built) in
      subst
        (λ (x : Tx eth).
          Reads eth x (ensure_0x (eth.address_string (eth.hex_to_address (trim_prefixes to))))
            (pos n) (eth.address_string (eth.hex_to_address (trim_prefixes asset.contract))))
        made
        (token-Reads eth t signer (eth.hex_to_address (trim_prefixes to)) _ n (laws.address_size _)
          small carried)

  -- A native transfer that is built reads back as what was asked for: its recipient is the address of
  -- the text `to`, its amount is the one given, and it has no contract.
  pub new_native_transfer-Reads :
      (builder : TxBuilder) (to : Text) (value : ℤ) (input : TxInput) {asset : AssetConfig}
      {tx : Tx eth}
      → item_asset_config builder.asset ≡ ok asset
      → (new_native_transfer eth builder to value input).1 ≡ ok tx
      → Reads eth tx (eth.address_string (eth.hex_to_address (trim_prefixes to))) value []
  new_native_transfer-Reads builder to value input configured built =
      let (t, signer, made, carried) =
        build-Carries builder to value [] _
          (sym (native-built builder to value input configured) ∙ built) in
      subst
        (λ (x : Tx eth).
          Reads eth x (eth.address_string (eth.hex_to_address (trim_prefixes to))) value [])
        made (native-Reads eth t signer _ value carried)
