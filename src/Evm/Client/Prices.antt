-- ===== src/Evm/Client/Prices.antt =====
-- chain/evm/client.go: the prices that `FetchTxInput` puts into an input.
use crosschain_enhanced_by_a.Prelude.{
  ℕ, ◌+◌, ◌*◌, ◌%◌, ◌^◌, ◌≤◌, ◌<◌, ◌⊎◌, Bool, true, false, [], none, some, Result, ok, err, ◌>>=◌,
  >>=-eq-ok, ok_injective, if◌then◌else◌, ◌==◌, ltb, ◌≡◌, refl, sym, ap, ◌∙◌, arith, subst,
  Bool-cases, inl, inr,
}
use crosschain_enhanced_by_a.Prelude.Int.{ℤ, pos}
use crosschain_enhanced_by_a.Prelude.Text.{Text, codes, eq_text}
use crosschain_enhanced_by_a.Asset.Config.{AssetConfig}
use crosschain_enhanced_by_a.Evm.{Eth, TxInput, Failure}
use crosschain_enhanced_by_a.Evm.Address.{hex_to_address}
use crosschain_enhanced_by_a.Evm.Client.{
  Floats, Node, Client, default_gas_price, default_gas_tip, base_fee, estimate_by_node,
  estimate_gas, gas_tip, fetch_tx_input,
}

-- A multiplier that lowers no number below 2 ^ 53, which a float64 holds exactly.
abbrev pub Raises : Floats → ℕ → Type 0
Raises floats m = (n : ℕ) → n < 2 ^ 53 → n ≤ floats.scaled n m

-- The tip of a configuration in gwei, 3 gwei where there is none.
abbrev pub IsTip : ℕ → ℕ → Type 0
IsTip configured tip =
    ((configured ≡ 0) × (tip ≡ 3000000000)) ⊎ ((1 ≤ configured) × (tip ≡ configured * 1000000000))

-- The prices of an input: the price is the cap, and the tip is not above it. On a chain without fees all
-- are 0; on another the tip is the configured one, and the cap is at least 23 gwei.
abbrev pub Priced : Client → TxInput → Type 0
Priced client input =
    (tip : ℕ) × (cap : ℕ) × (input.gas_tip_cap ≡ pos tip)
    × (input.gas_fee_cap ≡ pos cap)
    × (input.gas_price ≡ pos cap)
    × (tip ≤ cap)
    × (((client.native_asset.no_gas_fees ≡ true) × (cap ≡ 0))
        ⊎ ((client.native_asset.no_gas_fees ≡ false)
            × IsTip client.native_asset.chain_gas_tip tip
            × (23000000000 ≤ cap)))

abbrev AtLeast : ℕ → ℤ → Type 0
AtLeast least price = (cap : ℕ) × (price ≡ pos cap) × (least ≤ cap)

-- What is scaled: the base fee, at least 20 gwei, and 3 gwei.
abbrev with_tip : ℕ → ℕ
with_tip fee =
    ((if ltb fee default_gas_price then default_gas_price else fee) + default_gas_tip) % 2 ^ 64

with_tip-bounds : (fee : ℕ) → fee < 2 ^ 52 → (23000000000 ≤ with_tip fee) × (with_tip fee < 2 ^ 53)
with_tip-bounds fee h = elim (Bool-cases (ltb fee default_gas_price)) [
  | inl e ↦ rw e (omega arith, omega arith)
  | inr e ↦ (ground (arith, e, h), ground (arith, e, h))
]

IsTip-gas_tip :
    (config : AssetConfig)
    → config.chain_gas_tip ≤ 23
    → (tip : ℕ) × (gas_tip config ≡ pos tip) × IsTip config.chain_gas_tip tip × (tip ≤ 23000000000)
unfolding gas_tip
IsTip-gas_tip config h = elim (Bool-cases (config.chain_gas_tip == 0)) [
  | inl e ↦ (3000000000, rw (gas_tip, e) refl, inl (ground (arith, e), refl), omega arith)
  | inr e ↦ (
    config.chain_gas_tip * 1000000000,
    rw (gas_tip, e) refl,
    inr (ground (arith, e), refl),
    omega (arith, h),
  )
]

module _ (floats : Floats) (client : Client) (node : Node) (two : Raises floats floats.two)
    (configured : floats.positive client.native_asset.chain_gas_multiplier ≡ true
      → Raises floats client.native_asset.chain_gas_multiplier)
    (small : (fee : ℕ) → base_fee client node ≡ ok fee → fee < 2 ^ 52) where
  abbrev multiplier : ℕ
  multiplier =
      if floats.positive client.native_asset.chain_gas_multiplier
      then client.native_asset.chain_gas_multiplier
      else floats.two

  multiplier-Raises : Raises floats multiplier
  multiplier-Raises = elim (Bool-cases (floats.positive client.native_asset.chain_gas_multiplier)) [
    | inl e ↦ rw e (configured e)
    | inr e ↦ rw e two
  ]

  by_node-klay :
      eq_text client.native_asset.native_asset (codes "KLAY") ≡ true
      → estimate_by_node floats client node ≡ ok (pos 250000000000)
  unfolding estimate_by_node
  by_node-klay k = rw (estimate_by_node, k) refl

  by_node-scaled :
      eq_text client.native_asset.native_asset (codes "KLAY") ≡ false
      → estimate_by_node floats client node
        ≡ (base_fee client node >>= λ fee. ok (pos (floats.scaled (with_tip fee) multiplier)))
  unfolding estimate_by_node
  by_node-scaled k = rw (estimate_by_node, k) refl

  by_node : {price : ℤ} → estimate_by_node floats client node ≡ ok price → AtLeast 23000000000 price
  by_node e = elim (Bool-cases (eq_text client.native_asset.native_asset (codes "KLAY"))) [
    | inl k ↦ (250000000000, sym (ok_injective (sym (by_node-klay k) ∙ e)), omega arith)
    | inr k ↦
        let (fee, known, made) = >>=-eq-ok (base_fee client node) _ (sym (by_node-scaled k) ∙ e) in
        let (low, high) = with_tip-bounds fee (small fee known) in
        let raised = multiplier-Raises (with_tip fee) high in
        (
          floats.scaled (with_tip fee) multiplier,
          sym (ok_injective made),
          omega (arith, low, raised),
        )
  ]

  estimate_gas-none :
      node.estimate_gas_func ≡ none
      → estimate_gas floats client node ≡ estimate_by_node floats client node
  unfolding estimate_gas
  estimate_gas-none n = rw (estimate_gas, n) refl

  -- The price of an input, and its tip.
  abbrev chosen_price : Result Failure ℤ
  chosen_price =
      if client.native_asset.no_gas_fees then ok (pos 0) else estimate_gas floats client node

  abbrev chosen_tip : ℤ
  chosen_tip = if client.native_asset.no_gas_fees then pos 0 else gas_tip client.native_asset

  Priced-chosen :
      (nonce : ℕ) (price : ℤ)
      → node.estimate_gas_func ≡ none
      → client.native_asset.chain_gas_tip ≤ 23
      → chosen_price ≡ ok price
      → Priced client (record {
        nonce = nonce;
        gas_limit = 0;
        gas_tip_cap = chosen_tip;
        gas_fee_cap = price;
        gas_price = price;
        params = [];
      })
  Priced-chosen nonce price n low e = elim (Bool-cases client.native_asset.no_gas_fees) [
    | inl free ↦
        let zero_price = sym (
          ok_injective (
            subst
              (λ (b : Bool).
                ◌≡◌ {A = Result Failure ℤ}
                  (if b then ok (pos 0) else estimate_gas floats client node) (ok price))
              free e)) in
        (0, 0, rw free refl, zero_price, zero_price, omega arith, inl (free, refl))
    | inr paid ↦
        let estimated =
          subst
            (λ (b : Bool).
              ◌≡◌ {A = Result Failure ℤ} (if b then ok (pos 0) else estimate_gas floats client node)
                (ok price))
            paid e in
        let (cap, is_cap, above) = by_node (sym (estimate_gas-none n) ∙ estimated) in
        let (tip, is_tip, spelled, below) = IsTip-gas_tip client.native_asset low in
        (
          tip,
          cap,
          ap (λ (b : Bool). if b then pos 0 else gas_tip client.native_asset) paid ∙ is_tip,
          is_cap,
          is_cap,
          omega (arith, above, below),
          inr (paid, spelled, above),
        )
  ]

  -- An input that `FetchTxInput` returns has its price as its cap, and a tip that is not above the cap.
  -- On a chain without gas fees all three are 0. On any other chain the
  -- tip is the configured one in gwei, or 3 gwei where none is configured, and the cap is at least 23
  -- gwei. This is where no callback is registered, the configured tip is at most 23 gwei, the base fee
  -- is below 2 ^ 52, and neither the multiplier 2.0 nor a positive one of the configuration lowers a
  -- number below 2 ^ 53.
  pub fetch_tx_input-Priced :
      (eth : Eth) (from : Text) {input : TxInput}
      → node.estimate_gas_func ≡ none
      → client.native_asset.chain_gas_tip ≤ 23
      → fetch_tx_input eth floats client node from ≡ ok input
      → Priced client input
  unfolding fetch_tx_input hex_to_address
  fetch_tx_input-Priced eth from n low e =
      let (nonce, _, k) =
        >>=-eq-ok (elim (node.nonce_at _) [ none ↦ err Failure.rpc | some n ↦ ok n ]) _ e in
      let (price, estimated, made) = >>=-eq-ok chosen_price _ k in
      subst (Priced client) (ok_injective made) (Priced-chosen nonce price n low estimated)
