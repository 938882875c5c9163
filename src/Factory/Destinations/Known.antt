-- ===== src/Factory/Destinations/Known.antt =====
-- factory/main.go: what `cfgEnrichDestinations` writes to the destinations of a transaction.
use crosschain_enhanced_by_a.Prelude.{
  true, false, List, [], ◌∷◌, Option, none, some, ◌≡◌, refl, ap, sym, subst, ◌∙◌, ◌⊎◌, inl, inr,
  Bool-cases, Option-cases,
}
use crosschain_enhanced_by_a.Prelude.Text.{Text, is_empty}
use crosschain_enhanced_by_a.Asset.Config.{AssetConfig}
use crosschain_enhanced_by_a.Factory.Assets.{TokenCell, TaskRef, AssetError, Answer, Factory}
use crosschain_enhanced_by_a.Factory.Contracts.{config_of, cfg_from_asset_by_contract}
use crosschain_enhanced_by_a.Factory.Destinations.{
  ConfigRef, own, Destination, native_of, with_asset, at_state, with_answer, enrich_destination,
  enrich_destinations, on_activity, cfg_enrich_destinations,
}

-- What every destination keeps, and the chain that it gets.
abbrev pub SamePayment : Text → Destination → Destination → Type 0
SamePayment native_asset before after =
    (after.address ≡ before.address)
    × (after.amount ≡ before.amount)
    × (after.native_asset ≡ native_asset)

module _ (copied : TokenCell → AssetConfig) (native_asset : Text) (native_cfg : ConfigRef) where
  -- The native asset without a contract; with a contract, a configuration of the answer of
  -- `cfgFromAssetByContract`, or nothing where that has an error.
  abbrev pub IsPlaced :
      Factory → List (Text × TaskRef) → Destination → Factory × Destination → Type 0
  IsPlaced f order before (g, after) =
      ((is_empty before.contract_address ≡ true)
        × (g ≡ f)
        × (after ≡ record before { native_asset = native_asset; asset_config = native_cfg }))
      ⊎ ((item : TaskRef) × (cfg : AssetConfig) × (is_empty before.contract_address ≡ false)
          × (cfg_from_asset_by_contract copied order f before.contract_address native_asset
              ≡ some (g, (item, none)))
          × (config_of g item ≡ some cfg)
          × (after ≡ record before {
            native_asset = native_asset;
            asset = cfg.asset;
            contract_address = cfg.contract;
            asset_config = own cfg;
          }))
      ⊎ ((item : TaskRef) × (e : AssetError) × (is_empty before.contract_address ≡ false)
          × (cfg_from_asset_by_contract copied order f before.contract_address native_asset
              ≡ some (g, (item, some e)))
          × (after ≡ record before { native_asset = native_asset }))

  some_injective :
      {a b : Factory × Destination}
      → ◌≡◌ {A = Option (Factory × Destination)} (some a) (some b)
      → a ≡ b
  some_injective q = cc

  with_answer-IsPlaced :
      (f : Factory) (order : List (Text × TaskRef)) (dst : Destination)
      (o : Option (Factory × Answer)) (s : Factory × Destination)
      → is_empty dst.contract_address ≡ false
      → cfg_from_asset_by_contract copied order f dst.contract_address native_asset ≡ o
      → with_answer (record dst { native_asset = native_asset }) o ≡ some s
      → IsPlaced f order dst s
  unfolding with_answer
  with_answer-IsPlaced f order dst none s c h e = cc
  with_answer-IsPlaced f order dst (some (g, (item, some x))) s c h e =
      subst (IsPlaced f order dst) (some_injective e) (inr (inr (item, x, c, h, refl)))
  with_answer-IsPlaced f order dst (some (g, (item, none))) s c h e =
      elim (Option-cases (config_of g item)) [
        | inl n ↦ absurd (no_config (sym (ap (λ o. at_state g (with_asset placed o)) n) ∙ e))
        | inr (cfg, n) ↦
            subst (IsPlaced f order dst)
              (some_injective (sym (ap (λ o. at_state g (with_asset placed o)) n) ∙ e))
              (inr (inl (item, cfg, c, h, n, refl)))
      ]
    where
      placed : Destination
      placed = record dst { native_asset = native_asset }

      no_config : ◌≡◌ {A = Option (Factory × Destination)} none (some s) → ⊥
      no_config q = cc

  enrich_destination-IsPlaced :
      (f : Factory) (order : List (Text × TaskRef)) (dst : Destination) (s : Factory × Destination)
      → enrich_destination copied native_asset native_cfg f order dst ≡ some s
      → IsPlaced f order dst s
  unfolding enrich_destination
  enrich_destination-IsPlaced f order dst s e = elim (Bool-cases (is_empty dst.contract_address)) [
    | inl h ↦
        subst (IsPlaced f order dst) (some_injective (sym (chosen_then h) ∙ e))
          (inl (h, refl, refl))
    | inr h ↦
        with_answer-IsPlaced f order dst
          (cfg_from_asset_by_contract copied order f dst.contract_address native_asset) s h refl
          (sym (chosen_else h) ∙ e)
  ]
    where
      chosen_then :
          is_empty dst.contract_address ≡ true
          → enrich_destination copied native_asset native_cfg f order dst
            ≡ some (f, record dst { native_asset = native_asset; asset_config = native_cfg })
      chosen_then h = rw (enrich_destination, h) refl

      chosen_else :
          is_empty dst.contract_address ≡ false
          → enrich_destination copied native_asset native_cfg f order dst
            ≡ with_answer
                (record dst { native_asset = native_asset })
                (cfg_from_asset_by_contract copied order f dst.contract_address native_asset)
      chosen_else h = rw (enrich_destination, h) refl

  -- The destinations one after the other, each from the state that the one before it leaves.
  abbrev pub ArePlaced :
      Factory → List (List (Text × TaskRef) × Destination) → Factory → List Destination → Type 0
  ArePlaced f [] h [] = h ≡ f
  ArePlaced f [] h (d ∷ ds) = ⊥
  ArePlaced f (o ∷ os) h [] = ⊥
  ArePlaced f ((order, dst) ∷ os) h (d ∷ ds) =
      (g : Factory) × SamePayment native_asset dst d
      × IsPlaced f order dst (g, d)
      × ArePlaced g os h ds

  SamePayment-IsPlaced :
      (f : Factory) (order : List (Text × TaskRef)) (dst : Destination) (s : Factory × Destination)
      → IsPlaced f order dst s
      → SamePayment native_asset dst s.1
  SamePayment-IsPlaced f order dst (g, d) (inl h) =
      (ap (λ d. d.address) h.2, ap (λ d. d.amount) h.2, ap (λ d. d.native_asset) h.2)
  SamePayment-IsPlaced f order dst (g, d) (inr (inl h)) =
      (ap (λ d. d.address) h.5, ap (λ d. d.amount) h.5, ap (λ d. d.native_asset) h.5)
  SamePayment-IsPlaced f order dst (g, d) (inr (inr h)) =
      (ap (λ d. d.address) h.4, ap (λ d. d.amount) h.4, ap (λ d. d.native_asset) h.4)

  pair_injective :
      {a b : Factory × List Destination}
      → ◌≡◌ {A = Option (Factory × List Destination)} (some a) (some b)
      → a ≡ b
  pair_injective q = cc

  none_some : {A : Type 0} {a : A} → ◌≡◌ {A = Option A} none (some a) → ⊥
  none_some q = cc

  enrich_destinations-ArePlaced :
      (f : Factory) (os : List (List (Text × TaskRef) × Destination))
      (s : Factory × List Destination)
      → enrich_destinations copied native_asset native_cfg f os ≡ some s
      → ArePlaced f os s.0 s.1
  unfolding enrich_destinations
  enrich_destinations-ArePlaced f [] s e =
      subst (λ s. ArePlaced f [] s.0 s.1) (pair_injective e) refl
  enrich_destinations-ArePlaced f ((order, dst) ∷ os) s e =
      elim (Option-cases (enrich_destination copied native_asset native_cfg f order dst)) [
        | inl n ↦ absurd (none_some (sym (stopped n) ∙ e))
        | inr (r, n) ↦
            elim (Option-cases (enrich_destinations copied native_asset native_cfg r.0 os)) [
              | inl m ↦ absurd (none_some (sym (stopped_later r n m) ∙ e))
              | inr (t, m) ↦
                  let placed = enrich_destination-IsPlaced f order dst r n in
                  subst (λ s. ArePlaced f ((order, dst) ∷ os) s.0 s.1)
                    (pair_injective (sym (went_on r t n m) ∙ e))
                    (
                      r.0,
                      SamePayment-IsPlaced f order dst r placed,
                      placed,
                      enrich_destinations-ArePlaced r.0 os t m,
                    )
            ]
      ]
    where
      stopped :
          enrich_destination copied native_asset native_cfg f order dst ≡ none
          → enrich_destinations copied native_asset native_cfg f ((order, dst) ∷ os) ≡ none
      stopped n = rw (enrich_destinations, n) refl

      stopped_later :
          (r : Factory × Destination)
          → enrich_destination copied native_asset native_cfg f order dst ≡ some r
          → enrich_destinations copied native_asset native_cfg r.0 os ≡ none
          → enrich_destinations copied native_asset native_cfg f ((order, dst) ∷ os) ≡ none
      stopped_later r n m = rw (enrich_destinations, n, m) refl

      went_on :
          (r : Factory × Destination) (t : Factory × List Destination)
          → enrich_destination copied native_asset native_cfg f order dst ≡ some r
          → enrich_destinations copied native_asset native_cfg r.0 os ≡ some t
          → enrich_destinations copied native_asset native_cfg f ((order, dst) ∷ os)
            ≡ some (t.0, r.1 ∷ t.1)
      went_on r t n m = rw (enrich_destinations, n, m) refl

-- `cfgEnrichDestinations` keeps the number of destinations and the address and amount of each, and
-- gives each the chain of the activity. Without a contract a destination gets the native asset of the
-- activity; with one, the asset that `cfgFromAssetByContract` returns for it, or no asset on an error.
pub cfg_enrich_destinations-ArePlaced :
    (copied : TokenCell → AssetConfig) (f : Factory) (activity : TaskRef)
    (os : List (List (Text × TaskRef) × Destination)) (s : Factory × List Destination)
    → cfg_enrich_destinations copied f activity os ≡ some s
    → (cfg : AssetConfig) × (r : ConfigRef) × (config_of f activity ≡ some cfg)
      × (native_of f activity ≡ some r)
      × ArePlaced copied cfg.native_asset r f os s.0 s.1
unfolding cfg_enrich_destinations
cfg_enrich_destinations-ArePlaced copied f activity os s e =
    by_activity (config_of f activity) (native_of f activity) refl refl e
  where
    by_activity :
        (c : Option AssetConfig) (r : Option ConfigRef)
        → config_of f activity ≡ c
        → native_of f activity ≡ r
        → on_activity copied f c r os ≡ some s
        → (cfg : AssetConfig) × (r : ConfigRef) × (config_of f activity ≡ some cfg)
          × (native_of f activity ≡ some r)
          × ArePlaced copied cfg.native_asset r f os s.0 s.1
    by_activity none r h k e = cc
    by_activity (some cfg) none h k e = cc
    by_activity (some cfg) (some r) h k e =
        (cfg, r, h, k, enrich_destinations-ArePlaced copied cfg.native_asset r f os s e)
