-- ===== src/Tests/Toy.antt =====
-- A toy of go-ethereum that meets its laws, and values for the EVM driver.
use crosschain_enhanced_by_a.Prelude.{
  ℕ, List, [], ◌∷◌, ◌++◌, Option, some, ◌≡◌, refl, arith, length, take, length-take, length-append,
}
use crosschain_enhanced_by_a.Prelude.Int.{ℤ, pos}
use crosschain_enhanced_by_a.Prelude.Text.{Text, codes}
use crosschain_enhanced_by_a.Prelude.Bytes.{zeros, length-zeros}
use crosschain_enhanced_by_a.Asset.Config.{AssetConfig, empty_config}
use crosschain_enhanced_by_a.Evm.{Eth, EthLaws, TxInput, LegacyTx, DynamicFeeTx}
use crosschain_enhanced_by_a.Evm.Item.{AssetItem, token}

pub data ToyTx : Type 0 where
  made_legacy : LegacyTx → ToyTx
  made_dynamic : DynamicFeeTx → ToyTx

abbrev pub toy_data : ToyTx → List ℕ
toy_data (made_legacy l) = l.data_bytes
toy_data (made_dynamic d) = d.data_bytes

abbrev pub toy_to : ToyTx → Option (List ℕ)
toy_to (made_legacy l) = some l.to
toy_to (made_dynamic d) = some d.to

abbrev pub toy_value : ToyTx → ℤ
toy_value (made_legacy l) = l.value
toy_value (made_dynamic d) = d.value

abbrev pub toy_tip : ToyTx → ℤ
toy_tip (made_legacy l) = l.gas_price
toy_tip (made_dynamic d) = d.gas_tip_cap

abbrev pub toy_price : ToyTx → ℤ
toy_price (made_legacy l) = l.gas_price
toy_price (made_dynamic d) = d.gas_fee_cap

abbrev pub twenty : Text → List ℕ
twenty t = take 20 (t ++ zeros 20)

abbrev pub toy : Eth
toy = record {
  Transaction = ToyTx;
  Signer = ℤ;
  PublicKey = List ℕ;
  new_transaction = made_legacy;
  new_tx = made_dynamic;
  data_of = toy_data;
  to_of = toy_to;
  value_of = toy_value;
  gas_tip_cap_of = toy_tip;
  gas_price_of = toy_price;
  hash_of = λ t. [];
  marshal_binary = λ t. some (toy_data t);
  latest_signer_for_chain_id = λ id. id;
  signer_hash = λ signer t. toy_data t;
  with_signature = λ t signer sig. some t;
  sender = λ signer t. some [];
  decompress_pubkey = λ key. some key;
  unmarshal_pubkey = λ key. some key;
  pubkey_address = λ key. key;
  hex_to_address = twenty;
  address_string = λ a. a;
  keccak = λ t. 0xa9 ∷ 0x05 ∷ 0x9c ∷ 0xbb ∷ 0 ∷ [];
}

length-twenty : (t : Text) → length (twenty t) ≡ 20
length-twenty t =
    omega (arith, length-take 20 (t ++ zeros 20), length-append t (zeros 20), length-zeros 20)

pub toy_laws : EthLaws toy
toy_laws = record {
  data_legacy = λ l. refl;
  data_dynamic = λ d. refl;
  to_legacy = λ l. refl;
  to_dynamic = λ d. refl;
  value_legacy = λ l. refl;
  value_dynamic = λ d. refl;
  tip_legacy = λ l. refl;
  tip_dynamic = λ d. refl;
  price_legacy = λ l. refl;
  price_dynamic = λ d. refl;
  address_size = length-twenty;
}

abbrev pub eth_config : AssetConfig
eth_config = record empty_config {
  native_asset = codes "ETH";
  chain_id = pos 1;
  contract = codes "usdc";
}

abbrev pub usdc : AssetItem
usdc =
    token
      (record {
        asset = codes "USDC";
        chain = codes "ETH";
        net = [];
        decimals = pos 6;
        contract = codes "usdc";
        asset_type = [];
        base = eth_config;
        native_config = some eth_config;
      })
      (codes "1")

abbrev pub fresh : TxInput
fresh = record {
  nonce = 7;
  gas_limit = 0;
  gas_tip_cap = pos 2;
  gas_fee_cap = pos 40;
  gas_price = pos 30;
  params = [];
}
