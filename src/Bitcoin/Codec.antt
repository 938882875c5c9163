-- ===== src/Bitcoin/Codec.antt =====
-- What chain/bitcoin calls of the packages btcutil, base58, bech32, chainhash and txscript: an
-- argument of the model. A returned error is `none`.
use crosschain_enhanced_by_a.Prelude.{ℕ, Bool, List, Option}
use crosschain_enhanced_by_a.Prelude.Text.{Text}
use crosschain_enhanced_by_a.Bitcoin.Params.{Network, Contents, Params}

-- The dynamic types of a `btcutil.Address` that the program tells apart.
pub data AddrKind : Type 0 where
  pub_key_hash script_hash pub_key : AddrKind
  witness_pub_key_hash witness_script_hash : AddrKind
  other : AddrKind

pub record Codec : Type 1 where
  pub Addr : Type 0
  -- The contents of `chaincfg.MainNetParams`, `TestNet3Params` and `RegressionNetParams`.
  pub btc_contents : Network → Contents
  pub decode_address : Text → Params → Option Addr
  pub kind : Addr → AddrKind
  -- `base58.CheckDecode`: the payload and the version byte.
  pub check_decode : Text → Option (List ℕ × ℕ)
  pub base58_decode : Text → List ℕ
  pub base58_encode : List ℕ → Text
  -- `bech32.ConvertBits`
  pub convert_bits : List ℕ → ℕ → ℕ → Bool → Option (List ℕ)
  pub new_pub_key_hash : List ℕ → Params → Option Addr
  pub new_script_hash : List ℕ → Params → Option Addr
  pub pay_to_addr_script : Addr → Option (List ℕ)
