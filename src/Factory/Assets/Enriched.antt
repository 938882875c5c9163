-- ===== src/Factory/Assets/Enriched.antt =====
-- factory/main.go: what `cfgFromAsset` returns for a token whose chain is registered.
use mathlib.Core.Path.{fun_ext}
use crosschain_enhanced_by_a.Prelude.{ℕ, false, none, some, ◌≡◌, refl, ap₂, sym, subst, ◌∙◌}
use crosschain_enhanced_by_a.Prelude.Text.{Text, is_empty}
use crosschain_enhanced_by_a.Asset.Config.{AssetConfig}
use crosschain_enhanced_by_a.Factory.Assets.{
  TokenCell, native, token, Factory, update, load, as_token, token_type, with_chain,
  with_native_asset, cfg_from_asset,
}
use crosschain_enhanced_by_a.Factory.Assets.Cells.{update-same}
use crosschain_enhanced_by_a.Factory.Assets.Settled.{IsCopier, copy_base, cfg_from_asset-enriched}

-- The settings by which the chain of a token is reached and paid.
abbrev pub SameChain : AssetConfig → AssetConfig → Type 0
SameChain chain cfg =
    (cfg.driver ≡ chain.driver)
    × (cfg.url ≡ chain.url)
    × (cfg.fcd_url ≡ chain.fcd_url)
    × (cfg.auth ≡ chain.auth)
    × (cfg.auth_secret ≡ chain.auth_secret)
    × (cfg.provider ≡ chain.provider)
    × (cfg.chain_id ≡ chain.chain_id)
    × (cfg.chain_id_str ≡ chain.chain_id_str)
    × (cfg.chain_gas_multiplier ≡ chain.chain_gas_multiplier)
    × (cfg.explorer_url ≡ chain.explorer_url)
    × (cfg.no_gas_fees ≡ chain.no_gas_fees)
    × (cfg.gas_coin ≡ chain.gas_coin)
    × (cfg.chain_prefix ≡ chain.chain_prefix)

-- The identity of a token, in its `AssetConfig`.
abbrev pub SameToken : TokenCell → AssetConfig → Type 0
SameToken t cfg =
    (cfg.asset ≡ t.asset)
    × (cfg.chain ≡ t.chain)
    × (cfg.native_asset ≡ t.chain)
    × (cfg.contract ≡ t.contract)
    × (cfg.decimals ≡ t.decimals)
    × (cfg.asset_type ≡ token_type)

-- A token after the lookup, next to the token before it and to the cell of its chain. The network of
-- the chain is in the token, and the network that the token had is in its `AssetConfig`.
abbrev pub Reflects : ℕ → TokenCell → TokenCell → AssetConfig → Type 0
Reflects n before after chain =
    (after.native_config ≡ some n)
    × SameChain chain after.base
    × SameToken before after.base
    × (after.net ≡ chain.net)
    × (after.base.net ≡ before.net)

reflects :
    (n : ℕ) (t : TokenCell) (c : AssetConfig)
    → Reflects n t (with_chain c n (as_token (copy_base t))) (with_native_asset c)
reflects n t c = (
  refl,
  (refl, refl, refl, refl, refl, refl, refl, refl, refl, refl, refl, refl, refl),
  (refl, refl, refl, refl, refl, refl),
  refl,
  refl,
)

-- Where the copier copies the fields of the same names, for a registered token that names a chain, which
-- is registered as a native asset, `cfgFromAsset` returns the
-- token without an error, pointing to that native asset and with its driver, its addresses, its keys
-- and its fees; the network of the chain goes to the token but not to its `AssetConfig`.
pub cfg_from_asset-Reflects :
    (copied : TokenCell → AssetConfig) (f : Factory) (id : Text) (i n : ℕ)
    → IsCopier copied
    → load id f.all_assets ≡ some (token i)
    → is_empty (f.tokens i).chain ≡ false
    → load (f.tokens i).chain f.all_assets ≡ some (native n)
    → (g : Factory) × (cfg_from_asset copied f id ≡ some (g, (token i, none)))
      × Reflects n (f.tokens i) (g.tokens i) (g.natives n)
cfg_from_asset-Reflects copied f id i n same e h k =
    let cell = with_chain (f.natives n) n (as_token (copy_base (f.tokens i))) in
    let chain = with_native_asset (f.natives n) in
    (
      _,
      ap₂ (λ c x. cfg_from_asset c f id) (fun_ext same) (refl {a = id})
          ∙ cfg_from_asset-enriched f id i e n h k,
      subst (λ t. Reflects n (f.tokens i) t (update f.natives n chain n))
          (sym (update-same f.tokens i cell))
          (subst (Reflects n (f.tokens i) cell) (sym (update-same f.natives n chain))
            (reflects n (f.tokens i) (f.natives n))),
    )
