-- ===== src/Evm/Fee.antt =====
-- chain/evm/tx.go: bounds of the fee.
use crosschain_enhanced_by_a.Prelude.{
  ℕ, ◌+◌, ◌*◌, ◌≤◌, inl, inr, ◌≡◌, arith, Bool-cases, ltb, if◌then◌else◌,
}
use crosschain_enhanced_by_a.Prelude.Int.{ℤ, pos, ◌+ℤ◌, ◌*ℤ◌, ◌≤ℤ◌, ltb_ℤ, pos_+ℤ, pos_*ℤ}
use crosschain_enhanced_by_a.Evm.{Eth, EthLaws, DynamicFeeTx, LegacyTx}
use crosschain_enhanced_by_a.Evm.Tx.{fee}

-- The smaller of two amounts, the second where they are equal.
smaller : (x y : ℤ) → ((if ltb_ℤ x y then x else y) ≤ℤ x) × ((if ltb_ℤ x y then x else y) ≤ℤ y)
smaller x y = elim (Bool-cases (ltb_ℤ x y)) [
  | inl less ↦ rw (less) (omega arith, ground (arith, less))
  | inr not_less ↦ rw (not_less) (ground (arith, not_less), omega arith)
]

not_less :
    (gas_used base_fee price : ℕ)
    → (if ltb (gas_used * (base_fee + price) + 0) (price * gas_used + 0)
        then pos (gas_used * (base_fee + price))
        else pos (price * gas_used))
      ≡ pos (price * gas_used)
not_less gas_used base_fee price =
    let more : price * gas_used ≤ gas_used * (base_fee + price) = omega arith in
    ground (arith, more)

module _ (eth : Eth) (laws : EthLaws eth) where
  -- The fee of a dynamic transaction is at most the gas used at the price of the block and the tip, and
  -- at most the gas used at the cap that the sender agreed to.
  pub fee-bounded :
      (d : DynamicFeeTx) (base_fee gas_used : ℕ)
      → (fee eth (eth.new_tx d) base_fee gas_used
          ≤ℤ pos gas_used *ℤ (pos base_fee +ℤ d.gas_tip_cap))
        × (fee eth (eth.new_tx d) base_fee gas_used ≤ℤ d.gas_fee_cap *ℤ pos gas_used)
  unfolding fee
  fee-bounded d base_fee gas_used =
      rw (fee, laws.tip_dynamic d, laws.price_dynamic d)
        (smaller (pos gas_used *ℤ (pos base_fee +ℤ d.gas_tip_cap)) (d.gas_fee_cap *ℤ pos gas_used))

  -- The fee of a legacy transaction, of a price that is not negative, is the gas used at its price.
  pub fee-legacy :
      (l : LegacyTx) (price base_fee gas_used : ℕ)
      → l.gas_price ≡ pos price
      → fee eth (eth.new_transaction l) base_fee gas_used ≡ pos (price * gas_used)
  fee-legacy l price base_fee gas_used is =
      unfold fee in
      rw
        (
          laws.tip_legacy l,
          laws.price_legacy l,
          is,
          pos_+ℤ base_fee price,
          pos_*ℤ gas_used (base_fee + price),
          pos_*ℤ price gas_used,
        )
        (not_less gas_used base_fee price)
