-- ===== src/Factory/Assets/Settled.antt =====
-- factory/main.go: repeated calls of `cfgFromAsset`.
use crosschain_enhanced_by_a.Prelude.{ℕ, true, false, [], Option, none, some, ◌≡◌, refl, ap, ◌∙◌}
use crosschain_enhanced_by_a.Prelude.Text.{Text, is_empty}
use crosschain_enhanced_by_a.Asset.Config.{AssetConfig}
use crosschain_enhanced_by_a.Factory.Assets.{
  TokenCell, TaskRef, native, token, Factory, update, set_native, set_token, load, as_native,
  as_token, with_chain, with_native_asset, with_item, enrich_from, cfg_enrich_asset_config,
  from_entry, cfg_from_asset, unsupported_native,
}
use crosschain_enhanced_by_a.Factory.Assets.Cells.{update-same, update-update}

-- What the copier does, as its documentation says: the fields of the token are copied to the fields
-- of the same names.
abbrev pub copy_of : TokenCell → AssetConfig
copy_of t = record t.base {
  asset = t.asset;
  chain = t.chain;
  net = t.net;
  decimals = t.decimals;
  contract = t.contract;
  asset_type = t.asset_type;
}

abbrev pub IsCopier : (TokenCell → AssetConfig) → Type 0
IsCopier copied = (t : TokenCell) → copied t ≡ copy_of t

abbrev pub copy_base : TokenCell → TokenCell
copy_base t = record t { base = copy_of t }

module _ (f : Factory) (id : Text) where
  pub cfg_from_asset-native :
      (i : ℕ)
      → load id f.all_assets ≡ some (native i)
      → cfg_from_asset copy_of f id
        ≡ some (set_native f i (as_native (f.natives i)), (native i, none))
  unfolding cfg_from_asset from_entry
  cfg_from_asset-native i e = rw (cfg_from_asset, e) refl

  module _ (i : ℕ) (e : load id f.all_assets ≡ some (token i)) where
    -- The state in which the enrichment of a token starts.
    abbrev copied_in : Factory
    copied_in = set_token f i (copy_base (f.tokens i))

    from_token :
        cfg_from_asset copy_of f id ≡ with_item (token i) (cfg_enrich_asset_config copied_in i)
    unfolding cfg_from_asset from_entry
    from_token = rw (cfg_from_asset, e) refl

    pub cfg_from_asset-chainless :
        is_empty (f.tokens i).chain ≡ true
        → cfg_from_asset copy_of f id ≡ some (copied_in, (token i, none))
    unfolding cfg_enrich_asset_config
    cfg_from_asset-chainless h = from_token ∙ ap (with_item (token i)) (enrich h)
      where
        enrich :
            is_empty (f.tokens i).chain ≡ true
            → cfg_enrich_asset_config copied_in i ≡ some (copied_in, some (unsupported_native []))
        enrich h =
            rw (cfg_enrich_asset_config, update-same f.tokens i (copy_base (f.tokens i)), h) refl

    pub enrich_step :
        (r : Option TaskRef)
        → is_empty (f.tokens i).chain ≡ false
        → load (f.tokens i).chain f.all_assets ≡ r
        → cfg_from_asset copy_of f id
          ≡ with_item (token i) (enrich_from copied_in i (as_token (copy_base (f.tokens i))) r)
    unfolding cfg_enrich_asset_config
    enrich_step r h k = from_token ∙ ap (with_item (token i)) (enrich r h k)
      where
        enrich :
            (r : Option TaskRef)
            → is_empty (f.tokens i).chain ≡ false
            → load (f.tokens i).chain f.all_assets ≡ r
            → cfg_enrich_asset_config copied_in i
              ≡ enrich_from copied_in i (as_token (copy_base (f.tokens i))) r
        enrich r h k =
            rw (cfg_enrich_asset_config, update-same f.tokens i (copy_base (f.tokens i)), h, k) refl

    pub cfg_from_asset-unregistered :
        is_empty (f.tokens i).chain ≡ false
        → load (f.tokens i).chain f.all_assets ≡ none
        → cfg_from_asset copy_of f id
          ≡ some (set_token f i (as_token (copy_base (f.tokens i))), (token i, none))
    unfolding enrich_from
    cfg_from_asset-unregistered h k =
        enrich_step none h k
        ∙ ap (λ ts. some (record f { tokens = ts }, (token i, none)))
            (update-update f.tokens i (copy_base (f.tokens i)) (as_token (copy_base (f.tokens i))))

    pub cfg_from_asset-enriched :
        (n : ℕ)
        → is_empty (f.tokens i).chain ≡ false
        → load (f.tokens i).chain f.all_assets ≡ some (native n)
        → let cell = with_chain (f.natives n) n (as_token (copy_base (f.tokens i))) in
          cfg_from_asset copy_of f id
          ≡ some
              (set_native (set_token f i cell) n (with_native_asset (f.natives n)), (token i, none))
    unfolding enrich_from
    cfg_from_asset-enriched n h k =
        enrich_step (some (native n)) h k
        ∙ ap
            (λ ts. some (
              record f {
                tokens = ts;
                natives = update f.natives n (with_native_asset (f.natives n));
              },
              (token i, none),
            ))
            (update-update f.tokens i (copy_base (f.tokens i))
              (with_chain (f.natives n) n (as_token (copy_base (f.tokens i)))))
