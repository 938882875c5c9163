-- ===== src/Bitcoin/CashAddr/Checksum.antt =====
-- chain/bitcoin/address.go: the checksum that `AppendBchChecksum` appends is one that
-- `VerifyChecksum` accepts. The state of `PolyMod` is linear in what its 35 low digits take.
use Prim.Native.Nat.{bit_and, bit_xor}
use crosschain_enhanced_by_a.Prelude.{
  ℕ, zero, suc, ◌+◌, ◌*◌, ◌/◌, ◌%◌, ◌^◌, ◌<◌, true, List, [], ◌∷◌, ◌++◌, ◌≡◌, refl, sym, ap, ap₂,
  ◌∙◌, arith, ltb, ◌==◌, replicate, inl, inr, Bool-cases, append_assoc,
}
use crosschain_enhanced_by_a.Prelude.Text.{Text}
use crosschain_enhanced_by_a.Bitcoin.CashAddr.{
  mix, poly_step, poly_loop, poly_mod, encode_prefix, verify_checksum, checksum_groups,
  append_checksum,
}
use crosschain_enhanced_by_a.Bitcoin.CashAddr.Digits.{
  xor_assoc, xor_comm, xor_self, xor_zero, zero_xor, xor_times32, low, and_ones, low_xor, shift,
  shift_xor, xor_lt40,
}

-- The five tests of a round.
abbrev mixes : ℕ → ℕ → ℕ
mixes c0 c = mix c0 0x10 0x1e4f43e470 (
    mix c0 0x08 0xae2eabe2a8
      (mix c0 0x04 0xf33e5fb3c4 (mix c0 0x02 0x79b76d99e2 (mix c0 0x01 0x98f2bc8e61 c))))

xor_swap : (c e g : ℕ) → bit_xor (bit_xor c e) g ≡ bit_xor (bit_xor c g) e
xor_swap c e g = xor_assoc c e g ∙ ap (bit_xor c) (xor_comm e g) ∙ sym (xor_assoc c g e)

mix-xor : (c0 bit g c e : ℕ) → mix c0 bit g (bit_xor c e) ≡ bit_xor (mix c0 bit g c) e
unfolding mix
mix-xor c0 bit g c e = elim (Bool-cases (ltb 0 (bit_and c0 bit))) [
  | inl h ↦ rw h (xor_swap c e g)
  | inr h ↦ rw h refl
]

mixes-xor : (c0 c e : ℕ) → mixes c0 (bit_xor c e) ≡ bit_xor (mixes c0 c) e
mixes-xor c0 c e = rw (mix-xor, mix-xor, mix-xor, mix-xor, mix-xor) refl

mix-lt : (c0 bit g c : ℕ) → g < 2 ^ 40 → c < 2 ^ 40 → mix c0 bit g c < 2 ^ 40
unfolding mix
mix-lt c0 bit g c h k = elim (Bool-cases (ltb 0 (bit_and c0 bit))) [
  | inl b ↦ rw b (xor_lt40 c g k h)
  | inr b ↦ rw b k
]

mixes-lt : (c0 c : ℕ) → c < 2 ^ 40 → mixes c0 c < 2 ^ 40
mixes-lt c0 c h = mix-lt c0 _ _ _ (omega arith) (
    mix-lt c0 _ _ _ (omega arith) (
      mix-lt c0 _ _ _ (omega arith)
        (mix-lt c0 _ _ _ (omega arith) (mix-lt c0 _ _ c (omega arith) h))))

shifted : (x : ℕ) → bit_and x 0x07ffffffff * 2 ^ 5 % 2 ^ 64 ≡ low 7 x * 32
shifted x = omega (arith, and_ones 7 x)

-- A round, by the groups of five digits of the state.
step_groups : (x d : ℕ) → poly_step x d ≡ mixes (x / 2 ^ 35 % 2 ^ 8) (bit_xor (low 7 x * 32) d)
unfolding poly_step
step_groups x d = ap (λ y. mixes (x / 2 ^ 35 % 2 ^ 8) (bit_xor y d)) (shifted x)

step-lt : (x : ℕ) → poly_step x 0 < 2 ^ 40
step-lt x = rw (step_groups, xor_zero) (mixes-lt (x / 2 ^ 35 % 2 ^ 8) (low 7 x * 32) (omega arith))

-- What is added to the low digits of the state before a round, and a group of five digits, stand in
-- the state after it.
step_xor :
    (x e g : ℕ)
    → e < 2 ^ 35
    → g < 32
    → poly_step (bit_xor x e) g ≡ bit_xor (poly_step x 0) (e * 32 + g)
step_xor x e g h k =
    let e_low : low 7 e ≡ e = omega (arith, h) in
    let low_is : low 7 (bit_xor x e) ≡ bit_xor (low 7 x) e =
      low_xor 7 x e ∙ ap (bit_xor (low 7 x)) e_low in
    let e_high : shift 7 e ≡ 0 = omega (arith, h) in
    let high_is : shift 7 (bit_xor x e) ≡ shift 7 x =
      shift_xor 7 x e ∙ ap (bit_xor (shift 7 x)) e_high ∙ xor_zero (shift 7 x) in
    let top : bit_xor x e / 2 ^ 35 % 2 ^ 8 ≡ x / 2 ^ 35 % 2 ^ 8 = omega (arith, high_is) in
    let alone : 0 * 32 + g ≡ g = omega arith in
    let add : (a : ℕ) → bit_xor (a * 32) g ≡ a * 32 + g = λ a.
      ap (bit_xor (a * 32)) (sym alone) ∙ xor_times32 a 0 g k ∙ ap (λ y. y * 32 + g) (xor_zero a) in
    let inner : bit_xor (low 7 (bit_xor x e) * 32) g ≡ bit_xor (low 7 x * 32) (e * 32 + g) =
      ap (λ a. bit_xor (a * 32) g) low_is
      ∙ add (bit_xor (low 7 x) e)
      ∙ sym (xor_times32 (low 7 x) e g k) in
    step_groups (bit_xor x e) g
    ∙ ap₂ mixes top inner
    ∙ mixes-xor (x / 2 ^ 35 % 2 ^ 8) (low 7 x * 32) (e * 32 + g)
    ∙ ap (λ y. bit_xor (mixes (x / 2 ^ 35 % 2 ^ 8) y) (e * 32 + g)) (sym (xor_zero (low 7 x * 32)))
    ∙ ap (λ y. bit_xor y (e * 32 + g)) (sym (step_groups x 0))

-- The `n` low groups of a number, the highest first.
abbrev groups : ℕ → ℕ → List ℕ
groups zero m = []
groups (suc n) m = shift n m % 32 ∷ groups n m

shift-lt : (n m : ℕ) → m < 2 ^ 40 → shift (suc n) m < 2 ^ 35
shift-lt zero m h = omega (arith, h)
shift-lt (suc n) m h = omega (arith, shift-lt n m h)

-- Over the `n` low groups of `m`, the state ends as over `n` zeros, with `m` added.
loop_groups :
    (n x m : ℕ)
    → m < 2 ^ 40
    → poly_loop (bit_xor x (shift n m)) (groups n m) ≡ bit_xor (poly_loop x (replicate n 0)) m
unfolding poly_loop
loop_groups zero x m h = refl
loop_groups (suc n) x m h =
    let joined : shift n m / 32 * 32 + shift n m % 32 ≡ shift n m = omega arith in
    ap (λ c. poly_loop c (groups n m))
      (step_xor x (shift (suc n) m) (shift n m % 32) (shift-lt n m h) (omega arith)
        ∙ ap (bit_xor (poly_step x 0)) joined)
    ∙ loop_groups n (poly_step x 0) m h

entry : (q : ℕ) → bit_and q 0x1f % 2 ^ 8 ≡ q % 32
entry q = omega (arith, and_ones 1 q)

entry_at : (q s : ℕ) → q ≡ s → bit_and q 0x1f % 2 ^ 8 ≡ s % 32
entry_at q s e = entry q ∙ ap (λ y. y % 32) e

checksum_groups-eight : (m : ℕ) → checksum_groups 8 m ≡ groups 8 m
unfolding checksum_groups
checksum_groups-eight m = ap₂ ◌∷◌ (entry_at _ (shift 7 m) (omega arith)) (
    ap₂ ◌∷◌ (entry_at _ (shift 6 m) (omega arith)) (
      ap₂ ◌∷◌ (entry_at _ (shift 5 m) (omega arith)) (
        ap₂ ◌∷◌ (entry_at _ (shift 4 m) (omega arith)) (
          ap₂ ◌∷◌ (entry_at _ (shift 3 m) (omega arith)) (
            ap₂ ◌∷◌ (entry_at _ (shift 2 m) (omega arith)) (
              ap₂ ◌∷◌ (entry_at _ (shift 1 m) (omega arith))
                (ap₂ ◌∷◌ (entry_at _ (shift 0 m) (omega arith)) refl)))))))

loop_append : (xs ys : List ℕ) (c : ℕ) → poly_loop c (xs ++ ys) ≡ poly_loop (poly_loop c xs) ys
unfolding poly_loop
loop_append [] ys c = refl
loop_append (x ∷ xs) ys c = loop_append xs ys (poly_step c x)

loop_zeros-lt : (c : ℕ) → poly_loop c (replicate 8 0) < 2 ^ 40
unfolding poly_loop
loop_zeros-lt c = step-lt (poly_loop c (replicate 7 0))

-- From any state, the groups of the exclusive or with 1 of the state after eight zeros lead to 1.
loop_closes :
    (c : ℕ) → poly_loop c (checksum_groups 8 (bit_xor (poly_loop c (replicate 8 0)) 1)) ≡ 1
loop_closes c =
    let s = poly_loop c (replicate 8 0) in
    let m = bit_xor s 1 in
    let bound = xor_lt40 s 1 (loop_zeros-lt c) (omega arith) in
    let none_left : shift 8 m ≡ 0 = omega (arith, bound) in
    ap (poly_loop c) (checksum_groups-eight m)
    ∙ ap (λ x. poly_loop x (groups 8 m)) (sym (xor_zero c) ∙ ap (bit_xor c) (sym none_left))
    ∙ loop_groups 8 c m bound
    ∙ sym (xor_assoc s s 1)
    ∙ ap (λ y. bit_xor y 1) (xor_self s)
    ∙ zero_xor 1

-- For any prefix and any payload, the payload with its checksum verifies.
pub verify-append_checksum :
    (prefix : Text) (payload : List ℕ)
    → verify_checksum prefix (append_checksum prefix payload) ≡ true
unfolding verify_checksum append_checksum poly_mod
verify-append_checksum prefix payload =
    let v = encode_prefix prefix ++ payload in
    let c = poly_loop 1 v in
    let sum = checksum_groups 8 (bit_xor (poly_loop 1 (v ++ replicate 8 0)) 1) in
    let closes : poly_loop 1 (encode_prefix prefix ++ (payload ++ sum)) ≡ 1 =
      ap (poly_loop 1) (sym (append_assoc (encode_prefix prefix) payload sum))
      ∙ loop_append v sum 1
      ∙ ap (λ s. poly_loop c (checksum_groups 8 (bit_xor s 1))) (loop_append v (replicate 8 0) 1)
      ∙ loop_closes c in
    ap (λ y. bit_xor y 1 == 0) closes
