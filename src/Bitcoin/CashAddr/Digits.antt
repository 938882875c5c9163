-- ===== src/Bitcoin/CashAddr/Digits.antt =====
-- Exclusive or and masks by groups of five binary digits, as chain/bitcoin/address.go uses them.
use Prim.Native.Nat.{min, bit_and, bit_xor, digits, differ, bit_xor-bitwise, bit_and-bitwise}
use crosschain_enhanced_by_a.Prelude.{
  ℕ, zero, suc, ◌+◌, ◌*◌, ◌/◌, ◌%◌, ◌^◌, ◌≤◌, ◌<◌, ◌≡◌, refl, sym, ap, ap₂, ◌∙◌, ◌⊎◌, inl, inr,
  arith,
}

-- Any count of digits that the first number does not exceed gives the same digits.
digits-enough :
    (z : ℕ → ℕ) (f : ℕ → ℕ → ℕ) (n m a b : ℕ) → a ≤ n → a ≤ m → digits z f n a b ≡ digits z f m a b
digits-enough z f (suc n) (suc m) (suc a) b p q =
    ap (λ h. h * 2 + f (suc a % 2) (b % 2))
      (digits-enough z f n m (suc a / 2) (b / 2) (omega (arith, p)) (omega (arith, q)))
digits-enough z f zero zero a b p q = refl
digits-enough z f zero (suc m) zero b p q = refl
digits-enough z f (suc n) zero zero b p q = refl
digits-enough z f (suc n) (suc m) zero b p q = refl
digits-enough z f zero (suc m) (suc a) b p q = absurd (omega (arith, p))
digits-enough z f (suc n) zero (suc a) b p q = absurd (omega (arith, q))

two_cases : (a : ℕ) → (a % 2 ≡ 0) ⊎ (a % 2 ≡ 1)
two_cases a = ground arith

differ-mod : (a b : ℕ) → differ (a % 2) (b % 2) ≡ (a + b) % 2
differ-mod a b = elim (two_cases a) [
  | inl e ↦ elim (two_cases b) [
    | inl f ↦ rw (e, f) (omega (arith, e, f))
    | inr f ↦ rw (e, f) (omega (arith, e, f))
  ]
  | inr e ↦ elim (two_cases b) [
    | inl f ↦ rw (e, f) (omega (arith, e, f))
    | inr f ↦ rw (e, f) (omega (arith, e, f))
  ]
]

zero-bit_xor : (b : ℕ) → bit_xor 0 b ≡ b
zero-bit_xor b = bit_xor-bitwise 0 b

xor_step : (a b : ℕ) → bit_xor a b ≡ bit_xor (a / 2) (b / 2) * 2 + (a + b) % 2
xor_step zero b = omega (arith, zero-bit_xor b, zero-bit_xor (b / 2))
xor_step (suc a) b = omega (
  arith,
  bit_xor-bitwise (suc a) b,
  bit_xor-bitwise (suc a / 2) (b / 2),
  digits-enough (λ x. x) differ a (suc a / 2) (suc a / 2) (b / 2) (omega arith) (omega arith),
  differ-mod (suc a) b,
)

xor_half : (a b : ℕ) → bit_xor a b / 2 ≡ bit_xor (a / 2) (b / 2)
xor_half a b = omega (arith, xor_step a b)

xor_low : (a b : ℕ) → bit_xor a b % 2 ≡ (a + b) % 2
xor_low a b = omega (arith, xor_step a b)

xor_assoc_fuel : (n a b c : ℕ) → a + b + c ≤ n → bit_xor (bit_xor a b) c ≡ bit_xor a (bit_xor b c)
xor_assoc_fuel zero zero zero zero h = refl
xor_assoc_fuel zero zero zero (suc c) h = absurd (omega (arith, h))
xor_assoc_fuel zero zero (suc b) c h = absurd (omega (arith, h))
xor_assoc_fuel zero (suc a) b c h = absurd (omega (arith, h))
xor_assoc_fuel (suc n) a b c h = omega (
  arith,
  xor_step (bit_xor a b) c,
  ap (λ z. bit_xor z (c / 2)) (xor_half a b),
  xor_low a b,
  xor_assoc_fuel n (a / 2) (b / 2) (c / 2) (omega (arith, h)),
  xor_step a (bit_xor b c),
  ap (bit_xor (a / 2)) (xor_half b c),
  xor_low b c,
)

pub xor_assoc : (a b c : ℕ) → bit_xor (bit_xor a b) c ≡ bit_xor a (bit_xor b c)
xor_assoc a b c = xor_assoc_fuel (a + b + c) a b c (omega arith)

xor_comm_fuel : (n a b : ℕ) → a + b ≤ n → bit_xor a b ≡ bit_xor b a
xor_comm_fuel zero zero zero h = refl
xor_comm_fuel zero zero (suc b) h = absurd (omega (arith, h))
xor_comm_fuel zero (suc a) b h = absurd (omega (arith, h))
xor_comm_fuel (suc n) a b h =
    omega (arith, xor_step a b, xor_step b a, xor_comm_fuel n (a / 2) (b / 2) (omega (arith, h)))

pub xor_comm : (a b : ℕ) → bit_xor a b ≡ bit_xor b a
xor_comm a b = xor_comm_fuel (a + b) a b (omega arith)

xor_self_fuel : (n a : ℕ) → a ≤ n → bit_xor a a ≡ 0
xor_self_fuel zero zero h = refl
xor_self_fuel zero (suc a) h = absurd (omega (arith, h))
xor_self_fuel (suc n) a h = omega (arith, xor_step a a, xor_self_fuel n (a / 2) (omega (arith, h)))

pub xor_self : (a : ℕ) → bit_xor a a ≡ 0
xor_self a = xor_self_fuel a a (omega arith)

pub xor_zero : (a : ℕ) → bit_xor a 0 ≡ a
xor_zero a = xor_comm a 0 ∙ zero-bit_xor a

pub zero_xor : (a : ℕ) → bit_xor 0 a ≡ a
zero_xor = zero-bit_xor

-- The law for five digits at once.
pub xor_div32 : (a b : ℕ) → bit_xor a b / 32 ≡ bit_xor (a / 32) (b / 32)
xor_div32 a b =
    let h1 = xor_half a b in
    let h2 = xor_half (a / 2) (b / 2) in
    let h3 = xor_half (a / 2 / 2) (b / 2 / 2) in
    let h4 = xor_half (a / 2 / 2 / 2) (b / 2 / 2 / 2) in
    let h5 = xor_half (a / 2 / 2 / 2 / 2) (b / 2 / 2 / 2 / 2) in
    let a5 : a / 2 / 2 / 2 / 2 / 2 ≡ a / 32 = omega arith in
    let b5 : b / 2 / 2 / 2 / 2 / 2 ≡ b / 32 = omega arith in
    omega (arith, h1, h2, h3, h4, h5, ap₂ bit_xor a5 b5)

-- A multiple of 32 against a number whose five low digits are `r`.
pub xor_times32 : (a b r : ℕ) → r < 32 → bit_xor (a * 32) (b * 32 + r) ≡ bit_xor a b * 32 + r
xor_times32 a b r h =
    let x = a * 32 in
    let y = b * 32 + r in
    let a5 : x / 2 / 2 / 2 / 2 / 2 ≡ a = omega arith in
    let b5 : y / 2 / 2 / 2 / 2 / 2 ≡ b = omega (arith, h) in
    omega (
      arith,
      h,
      xor_step x y,
      xor_step (x / 2) (y / 2),
      xor_step (x / 2 / 2) (y / 2 / 2),
      xor_step (x / 2 / 2 / 2) (y / 2 / 2 / 2),
      xor_step (x / 2 / 2 / 2 / 2) (y / 2 / 2 / 2 / 2),
      ap₂ bit_xor a5 b5,
    )

zero-bit_and : (b : ℕ) → bit_and 0 b ≡ 0
zero-bit_and b = bit_and-bitwise 0 b

and_step : (a b : ℕ) → bit_and a b ≡ bit_and (a / 2) (b / 2) * 2 + min (a % 2) (b % 2)
and_step zero b = omega (arith, zero-bit_and b, zero-bit_and (b / 2))
and_step (suc a) b = omega (
  arith,
  bit_and-bitwise (suc a) b,
  bit_and-bitwise (suc a / 2) (b / 2),
  digits-enough (λ x. 0) min a (suc a / 2) (suc a / 2) (b / 2) (omega arith) (omega arith),
)

and_zero_fuel : (n a : ℕ) → a ≤ n → bit_and a 0 ≡ 0
and_zero_fuel n zero h = refl
and_zero_fuel zero (suc a) h = absurd (omega (arith, h))
and_zero_fuel (suc n) (suc a) h =
    omega (arith, and_step (suc a) 0, and_zero_fuel n (suc a / 2) (omega (arith, h)))

and_mask : (a m : ℕ) → bit_and a (m * 32 + 31) ≡ bit_and (a / 32) m * 32 + a % 32
and_mask a m =
    let y = m * 32 + 31 in
    let a5 : a / 2 / 2 / 2 / 2 / 2 ≡ a / 32 = omega arith in
    let y5 : y / 2 / 2 / 2 / 2 / 2 ≡ m = omega arith in
    omega (
      arith,
      and_step a y,
      and_step (a / 2) (y / 2),
      and_step (a / 2 / 2) (y / 2 / 2),
      and_step (a / 2 / 2 / 2) (y / 2 / 2 / 2),
      and_step (a / 2 / 2 / 2 / 2) (y / 2 / 2 / 2 / 2),
      ap₂ bit_and a5 y5,
    )

-- `n` groups of five ones, and the low `n` groups of a number.
abbrev pub ones : ℕ → ℕ
ones zero = 0
ones (suc n) = ones n * 32 + 31

abbrev pub low : ℕ → ℕ → ℕ
low zero a = 0
low (suc n) a = low n (a / 32) * 32 + a % 32

pub and_ones : (n a : ℕ) → bit_and a (ones n) ≡ low n a
and_ones zero a = and_zero_fuel a a (omega arith)
and_ones (suc n) a = omega (arith, and_mask a (ones n), and_ones n (a / 32))

-- The five low digits of an exclusive or.
abbrev bit_at : ℕ → ℕ → ℕ
bit_at a b = (a + b) % 2

abbrev five : ℕ → ℕ → ℕ
five a b =
    bit_at a b
    + 2 * bit_at (a / 2) (b / 2)
    + 4 * bit_at (a / 2 / 2) (b / 2 / 2)
    + 8 * bit_at (a / 2 / 2 / 2) (b / 2 / 2 / 2)
    + 16 * bit_at (a / 2 / 2 / 2 / 2) (b / 2 / 2 / 2 / 2)

xor_five : (a b : ℕ) → bit_xor a b ≡ bit_xor (a / 32) (b / 32) * 32 + five a b
xor_five a b =
    let a5 : a / 2 / 2 / 2 / 2 / 2 ≡ a / 32 = omega arith in
    let b5 : b / 2 / 2 / 2 / 2 / 2 ≡ b / 32 = omega arith in
    omega (
      arith,
      xor_step a b,
      xor_step (a / 2) (b / 2),
      xor_step (a / 2 / 2) (b / 2 / 2),
      xor_step (a / 2 / 2 / 2) (b / 2 / 2 / 2),
      xor_step (a / 2 / 2 / 2 / 2) (b / 2 / 2 / 2 / 2),
      ap₂ bit_xor a5 b5,
    )

bit_at-same : (a b c d : ℕ) → a % 2 ≡ c % 2 → b % 2 ≡ d % 2 → bit_at a b ≡ bit_at c d
bit_at-same a b c d h k = omega (arith, h, k)

five-low : (a b : ℕ) → five (a % 32) (b % 32) ≡ five a b
five-low a b =
    let x = a % 32 in
    let y = b % 32 in
    let t0 = bit_at-same x y a b (omega arith) (omega arith) in
    let t1 = bit_at-same (x / 2) (y / 2) (a / 2) (b / 2) (omega arith) (omega arith) in
    let t2 =
      bit_at-same (x / 2 / 2) (y / 2 / 2) (a / 2 / 2) (b / 2 / 2) (omega arith) (omega arith) in
    let t3 =
      bit_at-same (x / 2 / 2 / 2) (y / 2 / 2 / 2) (a / 2 / 2 / 2) (b / 2 / 2 / 2) (omega arith)
        (omega arith) in
    let t4 =
      bit_at-same (x / 2 / 2 / 2 / 2) (y / 2 / 2 / 2 / 2) (a / 2 / 2 / 2 / 2) (b / 2 / 2 / 2 / 2)
        (omega arith) (omega arith) in
    ap₂ (λ u v. u + v)
      (ap₂ (λ u v. u + v)
        (ap₂ (λ u v. u + v) (ap₂ (λ u v. u + v) t0 (ap (λ u. 2 * u) t1)) (ap (λ u. 4 * u) t2))
        (ap (λ u. 8 * u) t3))
      (ap (λ u. 16 * u) t4)

zero_times32 : (n : ℕ) → 0 * 32 + n ≡ n
zero_times32 n = omega arith

-- Both numbers cut after five digits.
pub xor_split32 :
    (a b : ℕ) → bit_xor a b ≡ bit_xor (a / 32) (b / 32) * 32 + bit_xor (a % 32) (b % 32)
xor_split32 a b =
    let x0 : a % 32 / 32 ≡ 0 = omega arith in
    let y0 : b % 32 / 32 ≡ 0 = omega arith in
    let above = ap₂ bit_xor x0 y0 ∙ xor_self 0 in
    let low_digits : bit_xor (a % 32) (b % 32) ≡ five a b =
      xor_five (a % 32) (b % 32)
      ∙ ap₂ (λ u v. u * 32 + v) above (five-low a b)
      ∙ zero_times32 (five a b) in
    xor_five a b ∙ ap (λ u. bit_xor (a / 32) (b / 32) * 32 + u) (sym low_digits)

xor_cut :
    (q p r s : ℕ)
    → r < 32
    → s < 32
    → bit_xor (q * 32 + r) (p * 32 + s) ≡ bit_xor q p * 32 + bit_xor r s
xor_cut q p r s h k =
    let q5 : (q * 32 + r) / 32 ≡ q = omega (arith, h) in
    let p5 : (p * 32 + s) / 32 ≡ p = omega (arith, k) in
    let r5 : (q * 32 + r) % 32 ≡ r = omega (arith, h) in
    let s5 : (p * 32 + s) % 32 ≡ s = omega (arith, k) in
    omega (arith, xor_split32 (q * 32 + r) (p * 32 + s), ap₂ bit_xor q5 p5, ap₂ bit_xor r5 s5)

xor_lt32 : (r s : ℕ) → r < 32 → s < 32 → bit_xor r s < 32
xor_lt32 r s h k =
    let r5 : r / 32 ≡ 0 = omega (arith, h) in
    let s5 : s / 32 ≡ 0 = omega (arith, k) in
    omega (arith, xor_div32 r s, ap₂ bit_xor r5 s5, xor_self 0)

pub low_xor : (n a b : ℕ) → low n (bit_xor a b) ≡ bit_xor (low n a) (low n b)
low_xor zero a b = sym (xor_self 0)
low_xor (suc n) a b =
    let rest = ap (low n) (xor_div32 a b) ∙ low_xor n (a / 32) (b / 32) in
    let below : bit_xor (a % 32) (b % 32) < 32 =
      xor_lt32 (a % 32) (b % 32) (omega arith) (omega arith) in
    omega (
      arith,
      rest,
      below,
      xor_split32 a b,
      xor_cut (low n (a / 32)) (low n (b / 32)) (a % 32) (b % 32) (omega arith) (omega arith),
    )

-- A number without its `n` low groups.
abbrev pub shift : ℕ → ℕ → ℕ
shift zero a = a
shift (suc n) a = shift n a / 32

pub shift_xor : (n a b : ℕ) → shift n (bit_xor a b) ≡ bit_xor (shift n a) (shift n b)
shift_xor zero a b = refl
shift_xor (suc n) a b = ap (λ x. x / 32) (shift_xor n a b) ∙ xor_div32 (shift n a) (shift n b)

-- Numbers of 40 digits have an exclusive or of 40 digits.
pub xor_lt40 : (a b : ℕ) → a < 2 ^ 40 → b < 2 ^ 40 → bit_xor a b < 2 ^ 40
xor_lt40 a b h k =
    let a0 : shift 8 a ≡ 0 = omega (arith, h) in
    let b0 : shift 8 b ≡ 0 = omega (arith, k) in
    let x0 = shift_xor 8 a b ∙ ap₂ bit_xor a0 b0 ∙ xor_self 0 in omega (arith, x0)
