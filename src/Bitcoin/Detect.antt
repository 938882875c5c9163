-- ===== src/Bitcoin/Detect.antt =====
-- chain/bitcoin/tx.go: `DetectFrom` and `DetectToAndAmount`, the reading of a transfer off a
-- transaction of the chain.
pub mod Largest
pub mod Paid
use crosschain_enhanced_by_a.Prelude.{Bool, true, false, not, ◌&&◌, List, [], ◌∷◌, if◌then◌else◌}
use crosschain_enhanced_by_a.Prelude.Int.{ℤ, pos, ◌+ℤ◌, ltb_ℤ}
use crosschain_enhanced_by_a.Prelude.Text.{Text, eq_text, is_empty}
use crosschain_enhanced_by_a.Bitcoin.{Input, Recipient}

-- The variables of the loop of `DetectFrom`.
pub record Sender : Type 0 where
  pub from : Text
  pub max : ℤ
  pub total_in : ℤ

unfoldable pub detect_from_round : Sender → Input → Sender
detect_from_round v i =
    let larger = ltb_ℤ v.max i.output.value in
    record {
      from = if larger then i.address else v.from;
      max = if larger then i.output.value else v.max;
      total_in = v.total_in +ℤ i.output.value;
    }

unfoldable pub detect_from_loop : Sender → List Input → Sender
detect_from_loop v [] = v
detect_from_loop v (i ∷ is) = detect_from_loop (detect_from_round v i) is

-- `DetectFrom`
unfoldable pub detect_from : List Input → Text × ℤ
unfolding detect_from_loop
detect_from inputs =
    let v = detect_from_loop (record { from = []; max = pos 0; total_in = pos 0 }) inputs in
    (v.from, v.total_in)

-- The variables of the loop of `DetectToAndAmount`.
pub record Receiver : Type 0 where
  pub to : Text
  pub amount : ℤ
  pub total_out : ℤ

-- A round of the loop; the two tests exclude one another.
unfoldable pub detect_to_round : Text → Text → Receiver → Recipient → Receiver
detect_to_round from expected v r =
    let known = not (is_empty expected) && eq_text r.to expected in
    let other = is_empty expected && not (eq_text r.to from) in
    let amount = if known then v.amount +ℤ r.value else v.amount in
    record {
      to = if other then r.to else v.to;
      amount = if other then r.value else amount;
      total_out = v.total_out +ℤ r.value;
    }

unfoldable pub detect_to_loop : Text → Text → Receiver → List Recipient → Receiver
detect_to_loop from expected v [] = v
detect_to_loop from expected v (r ∷ rs) =
    detect_to_loop from expected (detect_to_round from expected v r) rs

-- `DetectToAndAmount`
unfoldable pub detect_to_and_amount : List Recipient → Text → Text → Receiver
unfolding detect_to_loop
detect_to_and_amount recipients from expected =
    detect_to_loop from expected (record { to = expected; amount = pos 0; total_out = pos 0 })
      recipients
