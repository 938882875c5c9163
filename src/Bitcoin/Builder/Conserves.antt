-- ===== src/Bitcoin/Builder/Conserves.antt =====
-- chain/bitcoin/builder.go: a native transfer spends what it pays out and its fee, and no more.
use mathlib.Core.List.Permᴰ.{Permᴰ}
use crosschain_enhanced_by_a.Prelude.{
  ℕ, ◌^◌, ◌≤◌, ◌<◌, List, [], ◌∷◌, map, some, ◌≡◌, ◌≢◌, refl, ap₂, subst, ◌++◌, arith, ok, err,
  ◌>>=◌, >>=-eq-ok, ok_injective, All,
}
use crosschain_enhanced_by_a.Prelude.Int.{
  ℤ, pos, negsuc, pos_part, neg_part, ◌+ℤ◌, ◌-ℤ◌, ◌≤ℤ◌, int_laws,
}
use crosschain_enhanced_by_a.Prelude.Text.{Text}
use crosschain_enhanced_by_a.Asset.Config.{AssetConfig}
use crosschain_enhanced_by_a.Bitcoin.{Input, Output, Recipient, TxInput}
use crosschain_enhanced_by_a.Bitcoin.Failure.{Failure}
use crosschain_enhanced_by_a.Bitcoin.Params.{Params}
use crosschain_enhanced_by_a.Bitcoin.Codec.{Codec}
use crosschain_enhanced_by_a.Bitcoin.Tx.{TxOut, Tx, int64}
use crosschain_enhanced_by_a.Bitcoin.Utxo.{SliceSort, allocate_min_utxo_set}
use crosschain_enhanced_by_a.Bitcoin.Utxo.Order.{total}
use crosschain_enhanced_by_a.Bitcoin.Utxo.Allocation.{allocate-spends_once}
use crosschain_enhanced_by_a.Bitcoin.Builder.{
  TxBuilder, estimated_fee, recipient_address, pay_output, pay_outputs, transfer_tx,
  native_transfer,
}

-- The integers that an int64 holds.
abbrev pub InInt64 : ℤ → Type 0
InInt64 z = (pos_part z < 2 ^ 63) × (neg_part z ≤ 2 ^ 63)

pub int64_in_range : (z : ℤ) → InInt64 z → int64 z ≡ z
unfolding int64
int64_in_range (pos n) h = ground arith
int64_in_range (negsuc n) h = ground arith

abbrev pub paid : List TxOut → ℤ
paid [] = pos 0
paid (o ∷ os) = o.value +ℤ paid os

abbrev pub owed : List Recipient → ℤ
owed [] = pos 0
owed (r ∷ rs) = r.value +ℤ owed rs

-- The outputs are not negative, they and the fee are worth what is spent, and what is spent is in
-- the wallet, each output once.
abbrev pub Conserves : AssetConfig → TxInput → TxInput → List TxOut → Type 0
Conserves asset wallet spending outs =
    (total (map (λ (i : Input). i.output) spending.inputs)
      ≡ paid outs +ℤ estimated_fee asset spending)
    × All (λ (o : TxOut). pos 0 ≤ℤ o.value) outs
    × ((left : List Output) × Permᴰ (map (λ (i : Input). i.output) spending.inputs ++ left)
          wallet.unspent_outputs)

module _ (lib : Codec) where
  pay_output-eq_ok :
      (params : Params) (r : Recipient) {o : TxOut}
      → InInt64 r.value
      → pay_output lib params r ≡ ok o
      → (o.value ≡ r.value) × (pos 0 ≤ℤ o.value)
  pay_output-eq_ok params r h e =
      let same = int64_in_range r.value h in unfold pay_output in ground (arith, same)

  pay_outputs-eq_ok :
      (params : Params) (rs : List Recipient) {outs : List TxOut}
      → All (λ (r : Recipient). InInt64 r.value) rs
      → pay_outputs lib params rs ≡ ok outs
      → (paid outs ≡ owed rs) × All (λ (o : TxOut). pos 0 ≤ℤ o.value) outs
  unfolding pay_outputs
  pay_outputs-eq_ok params [] h e = rw (← ok_injective e) (refl, tt)
  pay_outputs-eq_ok params (r ∷ rs) h e =
      let (o, first, k) =
        >>=-eq-ok (pay_output lib params r)
          (λ out. pay_outputs lib params rs >>= λ os. ok (out ∷ os)) e in
      let (os, rest, l) = >>=-eq-ok (pay_outputs lib params rs) (λ outs. ok (o ∷ outs)) k in
      let one = pay_output-eq_ok params r h.0 first in
      let more = pay_outputs-eq_ok params rs h.1 rest in
      rw (← ok_injective l) (ap₂ (λ (a b : ℤ). a +ℤ b) one.0 more.0, (one.1, more.1))

module _ (lib : Codec) (s : SliceSort) (builder : TxBuilder) (from to : Text) (amount : ℤ)
    (input : TxInput) where
  -- The input after the allocation, the change, and the recipients of a native transfer.
  abbrev pub spending : TxInput
  spending = record (allocate_min_utxo_set s input amount 10).0 { unspent_outputs = [] }

  abbrev pub change : ℤ
  change =
      (allocate_min_utxo_set s input amount 10).1
      -ℤ (amount +ℤ estimated_fee builder.asset spending)

  abbrev pub pays : List Recipient
  pays = record { to = to; value = amount } ∷ record { to = from; value = change } ∷ []

  pub native_transfer-eq_ok :
      {tx : Tx}
      → native_transfer lib s builder from to amount input ≡ ok tx
      → (outs : List TxOut) × (pay_outputs lib builder.params pays ≡ ok outs)
        × (transfer_tx builder from to amount spending pays outs ≡ tx)
  unfolding native_transfer
  native_transfer-eq_ok e =
      let (outs, pay, built) =
        >>=-eq-ok (pay_outputs lib builder.params pays)
          (λ outs. ok (transfer_tx builder from to amount spending pays outs)) e in
      (outs, pay, ok_injective built)

  change_balances : (spent fee : ℤ) → spent ≡ (amount +ℤ (spent -ℤ (amount +ℤ fee) +ℤ pos 0)) +ℤ fee
  change_balances spent fee = omega int_laws

  conserves :
      (outs : List TxOut)
      → pay_outputs lib builder.params pays ≡ ok outs
      → All (λ (r : Recipient). InInt64 r.value) pays
      → Conserves builder.asset input spending outs
  conserves outs pay h =
      let (left, splits, balance) = allocate-spends_once s input amount 10 in
      let (sum, nonneg) = pay_outputs-eq_ok lib builder.params pays h pay in
      (
        rw (sum, ← balance)
            (change_balances (allocate_min_utxo_set s input amount 10).1
              (estimated_fee builder.asset spending)),
        nonneg,
        (left, splits),
      )

  -- A transfer that is built, and whose two amounts an int64 holds, has outputs that are not negative
  -- and that together with the fee are worth exactly the outputs that it spends. Those are outputs of
  -- the wallet, none spent twice.
  pub native_transfer-Conserves :
      {tx : Tx}
      → native_transfer lib s builder from to amount input ≡ ok tx
      → All (λ (r : Recipient). InInt64 r.value) tx.recipients
      → Conserves builder.asset input tx.input tx.msg_tx.tx_out
  unfolding transfer_tx
  native_transfer-Conserves {tx} e =
      let (outs, pay, built) = native_transfer-eq_ok e in
      subst
        (λ (t : Tx).
          All (λ (r : Recipient). InInt64 r.value) t.recipients
          → Conserves builder.asset input t.input t.msg_tx.tx_out)
        built (conserves outs pay)

  -- Where both addresses have a script and an int64 holds both amounts, a transfer of more than the
  -- allocated outputs are worth without the fee is refused with the error of a negative value.
  pub native_transfer-refuses :
      {a b : lib.Addr} {script script' : List ℕ}
      → recipient_address lib to builder.params ≡ ok a
      → recipient_address lib from builder.params ≡ ok b
      → lib.pay_to_addr_script a ≡ some script
      → lib.pay_to_addr_script b ≡ some script'
      → InInt64 amount
      → InInt64 change
      → pos 0 ≤ℤ amount
      → neg_part change ≢ 0
      → native_transfer lib s builder from to amount input ≡ err Failure.negative_value
  unfolding native_transfer pay_outputs pay_output
  native_transfer-refuses ra rb sa sb ia ic nonneg short =
      ground (arith, int64_in_range amount ia, int64_in_range change ic)
