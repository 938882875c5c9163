-- ===== src/Evm/Item.antt =====
-- task.go, asset.go: the items that a builder of chain/evm is made for, and what it reads of them. A
-- task holds its two assets; a nil one is `none`, and its methods panic.
use crosschain_enhanced_by_a.Prelude.{List, Option, none, some, Result, ok, err, ◌>>=◌}
use crosschain_enhanced_by_a.Prelude.Text.{Text}
use crosschain_enhanced_by_a.Asset.Config.{AssetConfig, TokenConfig}
use crosschain_enhanced_by_a.Evm.{Failure}

-- A value of an `interface{}` that a map of the configuration holds: a string, or anything else as
-- `%v` prints it.
pub data AnyValue : Type 0 where
  a_string : Text → AnyValue
  printed : Text → AnyValue

-- `interface{}` of an operation's contract and of a parameter's value. A map is its entries in the
-- order of an iteration, which Go leaves open.
pub data Setting : Type 0 where
  unset : Setting
  text : Text → Setting
  by_asset : List (AnyValue × AnyValue) → Setting
  foreign : Setting

-- `TaskConfigOperationParam`, without the name
pub record Param : Type 0 where
  pub kind : Text
  pub bind : Text
  pub matching : Text
  pub value : Setting

-- `TaskConfigOperation`, without the fields that are not read
pub record Operation : Type 0 where
  pub signature : Text
  pub contract : Setting
  pub params : List Param

-- An asset that is not a task. A token has the text of `Metadata.PriceUSD`.
pub data AssetItem : Type 0 where
  native : AssetConfig → AssetItem
  token : TokenConfig → Text → AssetItem

-- What the builder reads of a `TaskConfig`; of the default parameters, `arbiter_fee_usd` as `%v`
-- prints it.
pub record Task : Type 0 where
  pub code : Text
  pub operations : List Operation
  pub arbiter_fee_usd : Option Text
  pub src_asset : Option AssetItem
  pub dst_asset : Option AssetItem

-- `ITask`
pub data Item : Type 0 where
  single : AssetItem → Item
  task : Task → Item

-- A pointer that is dereferenced.
abbrev pub deref : {A : Type 0} → Option A → Result Failure A
deref none = err Failure.panic
deref (some a) = ok a

-- `GetAssetConfig`: a token gives the configuration that it embeds.
unfoldable pub get_asset_config : AssetItem → AssetConfig
get_asset_config (native c) = c
get_asset_config (token t price) = t.base

-- `GetNativeAsset`
unfoldable pub get_native_asset : AssetItem → Result Failure AssetConfig
get_native_asset (native c) = ok c
get_native_asset (token t price) = deref t.native_config

unfoldable pub item_asset_config : Item → Result Failure AssetConfig
unfolding get_asset_config
item_asset_config (single a) = ok (get_asset_config a)
item_asset_config (task t) = deref t.src_asset >>= λ a. ok (get_asset_config a)

unfoldable pub item_native_asset : Item → Result Failure AssetConfig
unfolding get_native_asset
item_native_asset (single a) = get_native_asset a
item_native_asset (task t) = deref t.src_asset >>= λ a. get_native_asset a
