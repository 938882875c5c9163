-- ===== src/Bitcoin/Params/Supported.antt =====
-- chain/bitcoin/params.go against asset.go: the chains with parameters are the UTXO chains.
use crosschain_enhanced_by_a.Prelude.{◌||◌, [], ◌∷◌, ◌≡◌, ◌↔◌, arith, ok, err}
use crosschain_enhanced_by_a.Prelude.Text.{Text, codes, one_of}
use crosschain_enhanced_by_a.Asset.{chain_type, ChainType, utxo_chains}
use crosschain_enhanced_by_a.Asset.Config.{AssetConfig}
use crosschain_enhanced_by_a.Bitcoin.Failure.{unsupported_asset}
use crosschain_enhanced_by_a.Bitcoin.Params.{Params, get_params, network_of}

one_of-utxo :
    (a : Text)
    → one_of a utxo_chains ≡ (
        one_of a (codes "BTC" ∷ codes "BCH" ∷ [])
        || (one_of a (codes "DOGE" ∷ []) || one_of a (codes "LTC" ∷ [])))
unfolding one_of
one_of-utxo a = ground arith

-- `GetParams` returns the error exactly for the configs whose chain is no UTXO chain; on a UTXO
-- chain the network is the one that the config names.
pub get_params-chain_type :
    (cfg : AssetConfig)
    → ((get_params cfg ≡ err unsupported_asset)
        ↔ (¬ (chain_type cfg.native_asset ≡ ChainType.utxo)))
      × ((p : Params) → get_params cfg ≡ ok p → p.network ≡ network_of cfg.net)
unfolding get_params chain_type
get_params-chain_type cfg = (ground (arith, one_of-utxo cfg.native_asset), λ p h. ground arith)
