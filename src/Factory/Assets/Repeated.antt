-- ===== src/Factory/Assets/Repeated.antt =====
-- factory/main.go: a second and a third call of `cfgFromAsset` for one asset.
use mathlib.Core.Path.{fun_ext}
use crosschain_enhanced_by_a.Prelude.{
  ℕ, true, false, Option, none, some, ◌≡◌, refl, ap, ap₂, sym, subst, ◌∙◌, inl, inr, Bool-cases,
  Option-cases,
}
use crosschain_enhanced_by_a.Prelude.Text.{Text, is_empty}
use crosschain_enhanced_by_a.Asset.Config.{AssetConfig}
use crosschain_enhanced_by_a.Factory.Assets.{
  TokenCell, TaskRef, native, token, task, new_native, new_token, nil, Factory, Answer, update,
  set_native, set_token, load, as_native, as_token, with_chain, with_native_asset, with_item,
  enrich_from, cfg_from_asset, from_entry, ask_callback, not_found, invalid_asset,
}
use crosschain_enhanced_by_a.Factory.Assets.Cells.{
  update-same, update-update, with_native_asset_twice,
}
use crosschain_enhanced_by_a.Factory.Assets.Settled.{
  copy_of, IsCopier, copy_base, cfg_from_asset-native, cfg_from_asset-chainless, enrich_step,
  cfg_from_asset-unregistered, cfg_from_asset-enriched,
}

-- A second call reaches a state that a third call leaves as it is, with the same answer.
abbrev pub Settles : (TokenCell → AssetConfig) → Text → Factory × Answer → Type 0
Settles copied id r =
    (f : Factory) × (cfg_from_asset copied r.0 id ≡ some (f, r.1))
    × (cfg_from_asset copied f id ≡ some (f, r.1))

some_injective :
    {a b : Factory × Answer} → ◌≡◌ {A = Option (Factory × Answer)} (some a) (some b) → a ≡ b
some_injective e = cc

Settles-by :
    (copied : TokenCell → AssetConfig) (f : Factory) (id : Text) (r s : Factory × Answer)
    → cfg_from_asset copied f id ≡ some r
    → Settles copied id r
    → cfg_from_asset copied f id ≡ some s
    → Settles copied id s
Settles-by copied f id r s known settles e =
    subst (Settles copied id) (some_injective (sym known ∙ e)) settles

-- A call that changes nothing.
Settles-same :
    (copied : TokenCell → AssetConfig) (f : Factory) (id : Text) (a : Answer)
    → cfg_from_asset copied f id ≡ some (f, a)
    → Settles copied id (f, a)
Settles-same copied f id a e = (f, e, e)

module _ (f : Factory) (id : Text) where
  Settles-native :
      (i : ℕ)
      → load id f.all_assets ≡ some (native i)
      → Settles copy_of id (set_native f i (as_native (f.natives i)), (native i, none))
  Settles-native i e = Settles-same copy_of (set_native f i cfg) id (native i, none) again
    where
      cfg : AssetConfig
      cfg = as_native (f.natives i)

      again :
          cfg_from_asset copy_of (set_native f i cfg) id
          ≡ some (set_native f i cfg, (native i, none))
      again =
          cfg_from_asset-native (set_native f i cfg) id i e
          ∙ ap (λ ns. some (record f { natives = ns }, (native i, none)))
              (ap (λ c. update (update f.natives i cfg) i (as_native c))
                  (update-same f.natives i cfg)
                ∙ update-update f.natives i cfg cfg)

  module _ (i : ℕ) (e : load id f.all_assets ≡ some (token i)) where
    chainless_again :
        (cell : TokenCell)
        → is_empty cell.chain ≡ true
        → cfg_from_asset copy_of (set_token f i cell) id
          ≡ some (set_token f i (copy_base cell), (token i, none))
    chainless_again cell h =
        let same = update-same f.tokens i cell in
        cfg_from_asset-chainless (set_token f i cell) id i e (ap (λ c. is_empty c.chain) same ∙ h)
        ∙ ap (λ ts. some (record f { tokens = ts }, (token i, none)))
            (ap (λ c. update (update f.tokens i cell) i (copy_base c)) same
              ∙ update-update f.tokens i cell (copy_base cell))

    unregistered_again :
        (cell : TokenCell)
        → is_empty cell.chain ≡ false
        → load cell.chain f.all_assets ≡ none
        → cfg_from_asset copy_of (set_token f i cell) id
          ≡ some (set_token f i (as_token (copy_base cell)), (token i, none))
    unregistered_again cell h k =
        let same = update-same f.tokens i cell in
        cfg_from_asset-unregistered (set_token f i cell) id i e
          (ap (λ c. is_empty c.chain) same ∙ h) (ap (λ c. load c.chain f.all_assets) same ∙ k)
        ∙ ap (λ ts. some (record f { tokens = ts }, (token i, none)))
            (ap (λ c. update (update f.tokens i cell) i (as_token (copy_base c))) same
              ∙ update-update f.tokens i cell (as_token (copy_base cell)))

    abbrev with_both : ℕ → TokenCell → AssetConfig → Factory
    with_both n cell chain = set_native (set_token f i cell) n chain

    enriched_again :
        (n : ℕ) (cell : TokenCell) (chain : AssetConfig)
        → is_empty cell.chain ≡ false
        → load cell.chain f.all_assets ≡ some (native n)
        → with_native_asset chain ≡ chain
        → cfg_from_asset copy_of (with_both n cell chain) id
          ≡ some
              (with_both n (with_chain chain n (as_token (copy_base cell))) chain, (token i, none))
    enriched_again n cell chain h k full =
        let same = update-same f.tokens i cell in
        let kept = update-same f.natives n chain in
        cfg_from_asset-enriched (with_both n cell chain) id i e n
          (ap (λ c. is_empty c.chain) same ∙ h) (ap (λ c. load c.chain f.all_assets) same ∙ k)
        ∙ ap₂ (λ ts ns. some (record f { tokens = ts; natives = ns }, (token i, none)))
            (ap₂
                (λ c d. update (update f.tokens i cell) i (with_chain d n (as_token (copy_base c))))
                same kept
              ∙ update-update f.tokens i cell (with_chain chain n (as_token (copy_base cell))))
            (ap (λ c. update (update f.natives n chain) n c) (ap with_native_asset kept ∙ full)
              ∙ update-update f.natives n chain chain)

    -- A chain that is registered as anything but a native asset is a panic.
    panics :
        (r : TaskRef) (s : Factory × Answer)
        → is_empty (f.tokens i).chain ≡ false
        → load (f.tokens i).chain f.all_assets ≡ some r
        → enrich_from
            (set_token f i (copy_base (f.tokens i)))
            i
            (as_token (copy_base (f.tokens i)))
            (some r)
          ≡ none
        → cfg_from_asset copy_of f id ≡ some s
        → Settles copy_of id s
    panics r s h k stops g =
        let stop = sym g ∙ enrich_step f id i e (some r) h k ∙ ap (with_item (token i)) stops in cc

    Settles-registered :
        (r : TaskRef) (s : Factory × Answer)
        → is_empty (f.tokens i).chain ≡ false
        → load (f.tokens i).chain f.all_assets ≡ some r
        → cfg_from_asset copy_of f id ≡ some s
        → Settles copy_of id s
    unfolding enrich_from
    Settles-registered (native n) s h k g =
        let cell = with_chain (f.natives n) n (as_token (copy_base (f.tokens i))) in
        let chain = with_native_asset (f.natives n) in
        let next = with_chain chain n (as_token (copy_base cell)) in
        let full = with_native_asset_twice (f.natives n) in
        Settles-by copy_of f id (with_both n cell chain, (token i, none)) s
          (cfg_from_asset-enriched f id i e n h k)
          (
            with_both n next chain,
            enriched_again n cell chain h k full,
            enriched_again n next chain h k full,
          )
          g
    Settles-registered (token j) s h k g = panics (token j) s h k refl g
    Settles-registered (task name src) s h k g = panics (task name src) s h k refl g
    Settles-registered new_native s h k g = panics new_native s h k refl g
    Settles-registered new_token s h k g = panics new_token s h k refl g
    Settles-registered nil s h k g = panics nil s h k refl g

    Settles-token :
        (s : Factory × Answer) → cfg_from_asset copy_of f id ≡ some s → Settles copy_of id s
    Settles-token s g = elim (Bool-cases (is_empty (f.tokens i).chain)) [
      | inl h ↦
          let cell = copy_base (f.tokens i) in
          Settles-by copy_of f id (set_token f i cell, (token i, none)) s
            (cfg_from_asset-chainless f id i e h)
            (set_token f i cell, chainless_again cell h, chainless_again cell h) g
      | inr h ↦ elim (Option-cases (load (f.tokens i).chain f.all_assets)) [
        | inl k ↦
            let cell = as_token (copy_base (f.tokens i)) in
            Settles-by copy_of f id (set_token f i cell, (token i, none)) s
              (cfg_from_asset-unregistered f id i e h k)
              (set_token f i cell, unregistered_again cell h k, unregistered_again cell h k) g
        | inr k ↦ Settles-registered k.0 s h k.1 g
      ]
    ]

  -- An entry that the lookup does not write to.
  unchanged :
      (r : Option TaskRef) (a : Answer) (s : Factory × Answer)
      → load id f.all_assets ≡ r
      → from_entry copy_of f id r ≡ some (f, a)
      → cfg_from_asset copy_of f id ≡ some s
      → Settles copy_of id s
  unfolding cfg_from_asset
  unchanged r a s e k g =
      let known = ap (from_entry copy_of f id) e ∙ k in
      Settles-by copy_of f id (f, a) s known (Settles-same copy_of f id a known) g

  Settles-found :
      (r : Option TaskRef) (s : Factory × Answer)
      → load id f.all_assets ≡ r
      → cfg_from_asset copy_of f id ≡ some s
      → Settles copy_of id s
  unfolding cfg_from_asset from_entry
  Settles-found (some (native i)) s e g =
      Settles-by copy_of f id (set_native f i (as_native (f.natives i)), (native i, none)) s
        (cfg_from_asset-native f id i e) (Settles-native i e) g
  Settles-found (some (token i)) s e g = Settles-token i e s g
  Settles-found none s e g = elim (Option-cases f.get_asset_callback) [
    | inl h ↦ unchanged none (new_native, some (not_found id)) s e (ap (ask_callback f id) h) g
    | inr h ↦ unchanged none (h.0 id) s e (ap (ask_callback f id) h.1) g
  ]
  Settles-found (some (task name src)) s e g =
      unchanged (some (task name src)) (new_native, some (invalid_asset id)) s e refl g
  Settles-found (some new_native) s e g =
      unchanged (some new_native) (new_native, some (invalid_asset id)) s e refl g
  Settles-found (some new_token) s e g =
      unchanged (some new_token) (new_native, some (invalid_asset id)) s e refl g
  Settles-found (some nil) s e g =
      unchanged (some nil) (new_native, some (invalid_asset id)) s e refl g

-- Where the copier copies the fields of the same names, whatever a first call of `cfgFromAsset` returns,
-- a second call returns it too, and after the second
-- a third call changes nothing.
pub cfg_from_asset-Settles :
    (copied : TokenCell → AssetConfig) (f : Factory) (id : Text) (s : Factory × Answer)
    → IsCopier copied
    → cfg_from_asset copied f id ≡ some s
    → Settles copied id s
cfg_from_asset-Settles copied f id s same =
    subst (λ c. cfg_from_asset c f id ≡ some s → Settles c id s) (sym (fun_ext same))
      (Settles-found f id (load id f.all_assets) s refl)
