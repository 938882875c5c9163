-- ===== src/Asset/Config.antt =====
-- asset.go, task.go: the configuration records, and the items that implement `ITask`.
-- A float64 is its 64-bit pattern, since the code modelled here only copies it. The deprecated or
-- unread `yaml` tags are dropped.
use crosschain_enhanced_by_a.Prelude.{ℕ, Bool, false, [], Option}
use crosschain_enhanced_by_a.Prelude.Int.{ℤ, pos}
use crosschain_enhanced_by_a.Prelude.Text.{Text}

-- `AssetConfig`, also called `NativeAssetConfig`. `Metadata` is not read here.
pub record AssetConfig : Type 0 where
  pub asset : Text
  pub driver : Text
  pub net : Text
  pub url : Text
  pub fcd_url : Text
  pub auth : Text
  pub provider : Text
  pub chain_id : ℤ
  pub chain_id_str : Text
  pub chain_name : Text
  pub chain_prefix : Text
  pub chain_coin : Text
  pub gas_coin : Text
  pub chain_coin_hd_path : ℕ
  pub chain_gas_price_default : ℕ
  pub chain_gas_multiplier : ℕ
  pub chain_gas_tip : ℕ
  pub explorer_url : Text
  pub decimals : ℤ
  pub name : Text
  pub indexer_url : Text
  pub indexer_type : Text
  pub no_gas_fees : Bool
  pub chain : Text
  pub contract : Text
  pub auth_secret : Text
  pub asset_type : Text
  pub native_asset : Text

-- `AssetConfig{}`
abbrev pub empty_config : AssetConfig
empty_config = record {
  asset = [];
  driver = [];
  net = [];
  url = [];
  fcd_url = [];
  auth = [];
  provider = [];
  chain_id = pos 0;
  chain_id_str = [];
  chain_name = [];
  chain_prefix = [];
  chain_coin = [];
  gas_coin = [];
  chain_coin_hd_path = 0;
  chain_gas_price_default = 0;
  chain_gas_multiplier = 0;
  chain_gas_tip = 0;
  explorer_url = [];
  decimals = pos 0;
  name = [];
  indexer_url = [];
  indexer_type = [];
  no_gas_fees = false;
  chain = [];
  contract = [];
  auth_secret = [];
  asset_type = [];
  native_asset = [];
}

-- `TokenAssetConfig`. The embedded `AssetConfig` is the field `base`; the fields declared by the
-- token itself hide those of `base`. `native_config` is the pointer `NativeAssetConfig`, as the
-- value that it points to.
pub record TokenConfig : Type 0 where
  pub asset : Text
  pub chain : Text
  pub net : Text
  pub decimals : ℤ
  pub contract : Text
  pub asset_type : Text
  pub base : AssetConfig
  pub native_config : Option AssetConfig
