-- ===== src/Bitcoin/Params.antt =====
-- chain/bitcoin/params.go: the networks of the UTXO chains. A `*chaincfg.Params` is compared by its
-- address in the source, so a pointer is the chain and the network that it belongs to; what it points
-- to is `contents`. The parameters of Bitcoin itself are the package `chaincfg`'s, an argument.
pub mod Supported
use crosschain_enhanced_by_a.Prelude.{ℕ, List, [], ◌∷◌, Result, ok, err, if◌then◌else◌}
use crosschain_enhanced_by_a.Prelude.Text.{Text, codes, eq_text, one_of}
use crosschain_enhanced_by_a.Asset.Config.{AssetConfig}
use crosschain_enhanced_by_a.Bitcoin.Failure.{Failure, unsupported_asset}

-- `Network`
pub data Network : Type 0 where
  mainnet testnet regtest : Network

pub data Coin : Type 0 where
  bitcoin dogecoin litecoin : Coin

-- `*chaincfg.Params`
pub record Params : Type 0 where
  pub coin : Coin
  pub network : Network

-- The fields of `chaincfg.Params` that the program sets.
pub record Contents : Type 0 where
  pub name : Text
  pub net : ℕ
  pub pub_key_hash_addr_id : ℕ
  pub script_hash_addr_id : ℕ
  pub private_key_id : ℕ
  pub hd_private_key_id : List ℕ
  pub hd_public_key_id : List ℕ
  pub bech32_hrp_segwit : Text

abbrev bytes4 : ℕ → ℕ → ℕ → ℕ → List ℕ
bytes4 a b c d = a ∷ b ∷ c ∷ d ∷ []

-- `DogeNetworks`
unfoldable pub doge_contents : Network → Contents
doge_contents Network.mainnet = record {
  name = codes "mainnet";
  net = 0xc0c0c0c0;
  pub_key_hash_addr_id = 30;
  script_hash_addr_id = 22;
  private_key_id = 158;
  hd_private_key_id = bytes4 0x02 0xfa 0xc3 0x98;
  hd_public_key_id = bytes4 0x02 0xfa 0xca 0xfd;
  bech32_hrp_segwit = codes "doge";
}
doge_contents Network.testnet = record {
  name = codes "testnet";
  net = 0xfcc1b7dc;
  pub_key_hash_addr_id = 113;
  script_hash_addr_id = 196;
  private_key_id = 241;
  hd_private_key_id = bytes4 0x04 0x35 0x83 0x94;
  hd_public_key_id = bytes4 0x04 0x35 0x87 0xcf;
  bech32_hrp_segwit = codes "doget";
}
doge_contents Network.regtest = record {
  name = codes "regtest";
  net = 0xfabfb5da;
  pub_key_hash_addr_id = 111;
  script_hash_addr_id = 196;
  private_key_id = 239;
  hd_private_key_id = bytes4 0x04 0x35 0x83 0x94;
  hd_public_key_id = bytes4 0x04 0x35 0x87 0xcf;
  bech32_hrp_segwit = codes "dogert";
}

-- `LtcNetworks`
unfoldable pub ltc_contents : Network → Contents
ltc_contents Network.mainnet = record {
  name = codes "mainnet";
  net = 0xfbc0b6db;
  pub_key_hash_addr_id = 48;
  script_hash_addr_id = 50;
  private_key_id = 176;
  hd_private_key_id = bytes4 0x04 0x88 0xad 0xe4;
  hd_public_key_id = bytes4 0x04 0x88 0xb2 0x1e;
  bech32_hrp_segwit = codes "ltc";
}
ltc_contents Network.testnet = record {
  name = codes "testnet";
  net = 0xfdd2c8f1;
  pub_key_hash_addr_id = 111;
  script_hash_addr_id = 196;
  private_key_id = 239;
  hd_private_key_id = bytes4 0x04 0x35 0x83 0x94;
  hd_public_key_id = bytes4 0x04 0x35 0x87 0xcf;
  bech32_hrp_segwit = codes "tltc";
}
ltc_contents Network.regtest = record {
  name = codes "regtest";
  net = 0xfabfb5da;
  pub_key_hash_addr_id = 111;
  script_hash_addr_id = 196;
  private_key_id = 239;
  hd_private_key_id = bytes4 0x04 0x35 0x83 0x94;
  hd_public_key_id = bytes4 0x04 0x35 0x87 0xcf;
  bech32_hrp_segwit = codes "rltc";
}

-- What a pointer points to, given the contents of Bitcoin's own parameters.
unfoldable pub contents : (Network → Contents) → Params → Contents
contents btc p = elim p.coin [
  | Coin.bitcoin ↦ btc p.network
  | Coin.dogecoin ↦ doge_contents p.network
  | Coin.litecoin ↦ ltc_contents p.network
]

-- `NetworkTriple.GetParams`: an unknown network is the regtest.
unfoldable pub network_of : Text → Network
network_of name =
    if eq_text name (codes "mainnet")
    then Network.mainnet
    else if eq_text name (codes "testnet")
    then Network.testnet
    else Network.regtest

-- `GetParams`
unfoldable pub get_params : AssetConfig → Result Failure Params
get_params cfg =
    let at : Coin → Result Failure Params =
      λ c. ok (record { coin = c; network = network_of cfg.net }) in
    if one_of cfg.native_asset (codes "BTC" ∷ codes "BCH" ∷ [])
    then at Coin.bitcoin
    else if one_of cfg.native_asset (codes "DOGE" ∷ [])
    then at Coin.dogecoin
    else if one_of cfg.native_asset (codes "LTC" ∷ [])
    then at Coin.litecoin
    else err unsupported_asset
