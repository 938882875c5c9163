-- ===== src/Tests/Sample.antt =====
-- Values that the tests share: a codec that reads any text but the empty one, a script library, a
-- hash library, a wallet of three outputs, and a transaction of two inputs.
use crosschain_enhanced_by_a.Prelude.{ℕ, ◌+◌, Bool, false, [], ◌∷◌, none, some, if◌then◌else◌, ◌==◌}
use crosschain_enhanced_by_a.Prelude.Int.{pos}
use crosschain_enhanced_by_a.Prelude.Text.{Text, codes, is_empty}
use crosschain_enhanced_by_a.Asset.Config.{AssetConfig, empty_config}
use crosschain_enhanced_by_a.Bitcoin.{Output, Input, TxInput}
use crosschain_enhanced_by_a.Bitcoin.Params.{Network, Coin, Contents}
use crosschain_enhanced_by_a.Bitcoin.Codec.{Codec, AddrKind}
use crosschain_enhanced_by_a.Bitcoin.Tx.{TxIn, Tx}
use crosschain_enhanced_by_a.Bitcoin.Builder.{TxBuilder}
use crosschain_enhanced_by_a.Bitcoin.Signing.{Scripts}
use crosschain_enhanced_by_a.Bitcoin.Sighash.{Hashing}

abbrev plain_contents : Network → Contents
plain_contents n = record {
  name = codes "mainnet";
  net = 0;
  pub_key_hash_addr_id = 0;
  script_hash_addr_id = 5;
  private_key_id = 128;
  hd_private_key_id = [];
  hd_public_key_id = [];
  bech32_hrp_segwit = codes "bc";
}

abbrev pub codec : Codec
codec = record {
  Addr = Text;
  btc_contents = plain_contents;
  decode_address = λ t p. if is_empty t then none else some t;
  kind = λ a. AddrKind.pub_key_hash;
  check_decode = λ t. none;
  base58_decode = λ t. t;
  base58_encode = λ t. t;
  convert_bits = λ bytes from to pad. none;
  new_pub_key_hash = λ hash p. some hash;
  new_script_hash = λ hash p. some hash;
  pay_to_addr_script = λ a. some (118 ∷ a);
}

abbrev pub scripts : Scripts
scripts = record {
  is_pay_to_witness_pub_key_hash = λ s. elim s [ [] ↦ false | ◌∷◌ c t ↦ c == 0 ];
  is_pay_to_witness_script_hash = λ s. false;
  serialize = λ r s. 48 ∷ (r + s) ∷ [];
  script = λ items. ([], none);
}

abbrev pub hashing : Hashing
hashing = record {
  calc_witness_sig_hash = λ s m i v. some (1 ∷ s);
  calc_signature_hash = λ s m i. some (2 ∷ s);
  hash_prev_outs = λ m. 3 ∷ [];
  hash_sequence = λ m. 4 ∷ [];
  hash_outputs = λ m. 5 ∷ [];
  write_var_bytes = λ b. b;
  write_tx_out = λ o. o.script;
  double_hash = λ b. b;
  sequence = 0xffffffff;
  lock_time = 0;
}

abbrev pub output : ℕ → Output
output v = record {
  outpoint = record { hash = v ∷ []; index = 0 };
  value = pos v;
  pub_key_script = 118 ∷ [];
}

abbrev pub input : Text → ℕ → Input
input a v = record { output = output v; sig_script = none; address = a }

abbrev pub wallet : TxInput
wallet = record {
  unspent_outputs = output 5000 ∷ output 70000 ∷ output 1200 ∷ [];
  inputs = [];
  from_public_key = 2 ∷ [];
  gas_price_per_byte = pos 2;
}

abbrev pub btc_config : AssetConfig
btc_config = record empty_config { asset = codes "BTC"; native_asset = codes "BTC" }

abbrev pub doge_config : AssetConfig
doge_config = record empty_config { asset = codes "DOGE"; native_asset = codes "DOGE" }

abbrev pub btc_builder : TxBuilder
btc_builder = record {
  asset = btc_config;
  params = record { coin = Coin.bitcoin; network = Network.mainnet };
  is_bch = false;
}

abbrev pub doge_builder : TxBuilder
doge_builder = record {
  asset = doge_config;
  params = record { coin = Coin.dogecoin; network = Network.regtest };
  is_bch = false;
}

abbrev pub tx_in : TxIn
tx_in = record { hash = 7 ∷ []; index = 0; signature_script = none; witness = [] }

abbrev pub unsigned_tx : Bool → Tx
unsigned_tx is_bch = record {
  msg_tx = record { version = 2; tx_in = tx_in ∷ tx_in ∷ []; tx_out = [] };
  signed = false;
  recipients = [];
  amount = pos 10;
  input = record wallet { inputs = input (codes "a") 5000 ∷ input (codes "b") 70000 ∷ [] };
  from = codes "a";
  to = codes "b";
  is_bch = is_bch;
}
