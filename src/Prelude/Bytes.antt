-- ===== src/Prelude/Bytes.antt =====
-- Byte strings: `math/big` and the padding of numbers to words, and the hex digits of a string.
use Prim.Native.Nat.{ℕ, zero, suc, ◌+◌, ◌-◌, ◌*◌, ◌/◌, ◌%◌, ◌^◌, ◌≤◌, ◌<◌}
use mathlib.Core.Path.{◌≡◌, refl, ap, ◌∙◌}
use mathlib.Core.Bool.{true}
use mathlib.Core.List.{List, [], ◌∷◌, ◌++◌}
use mathlib.Core.Option.{Option, none, some}
use native.Mathlib.Omega.{arith}
use crosschain_enhanced_by_a.Prelude.Tests.{ltb, leb, if◌then◌else◌}
use crosschain_enhanced_by_a.Prelude.Lists.{
  length, take, drop, replicate, length-append, take-append_length, drop-append_length,
}
use crosschain_enhanced_by_a.Prelude.Int.{ℤ, pos, pos_part, neg_part}

-- `new(big.Int).SetBytes(bytes)`
unfoldable pub big_endian : ℕ → List ℕ → ℕ
big_endian acc [] = acc
big_endian acc (b ∷ bs) = big_endian (256 * acc + b) bs

-- The bytes of a number, the most significant first and with no zero in front. The first argument
-- bounds the number of bytes.
unfoldable pub bytes_within : ℕ → ℕ → List ℕ
bytes_within zero n = []
bytes_within (suc bound) zero = []
bytes_within (suc bound) (suc n) = bytes_within bound (suc n / 256) ++ (suc n % 256) ∷ []

-- `big.Int.Bytes`: of the absolute value.
unfoldable pub big_bytes : ℤ → List ℕ
unfolding bytes_within
big_bytes z = bytes_within (pos_part z + neg_part z) (pos_part z + neg_part z)

abbrev pub zeros : ℕ → List ℕ
zeros n = replicate n 0

-- `common.LeftPadBytes`: a string that is long enough already is kept.
unfoldable pub left_pad : ℕ → List ℕ → List ℕ
left_pad size bytes = zeros (size - length bytes) ++ bytes

-- `hex.EncodeToString`
unfoldable pub hex_digit : ℕ → ℕ
hex_digit d = if ltb d 10 then b'0' + d else b'a' + (d - 10)

unfoldable pub hex_encode : List ℕ → List ℕ
unfolding hex_digit
hex_encode [] = []
hex_encode (b ∷ bs) = hex_digit (b / 16) ∷ hex_digit (b % 16) ∷ hex_encode bs

-- `bytes[from:to]`, which panics out of range. Go checks the capacity, taken to be the length.
unfoldable pub slice : ℕ → ℕ → List ℕ → Option (List ℕ)
slice from to bytes =
    if leb to (length bytes) then some (take (to - from) (drop from bytes)) else none

pub big_endian-append :
    (acc : ℕ) (xs ys : List ℕ) → big_endian acc (xs ++ ys) ≡ big_endian (big_endian acc xs) ys
unfolding big_endian
big_endian-append acc [] ys = refl
big_endian-append acc (x ∷ xs) ys = big_endian-append (256 * acc + x) xs ys

big_endian-zeros : (n : ℕ) → big_endian 0 (zeros n) ≡ 0
unfolding big_endian
big_endian-zeros zero = refl
big_endian-zeros (suc n) = big_endian-zeros n

pub big_endian-left_pad :
    (size : ℕ) (xs : List ℕ) → big_endian 0 (left_pad size xs) ≡ big_endian 0 xs
unfolding left_pad
big_endian-left_pad size xs =
    big_endian-append 0 (zeros (size - length xs)) xs
    ∙ ap (λ acc. big_endian acc xs) (big_endian-zeros (size - length xs))

pub length-zeros : (n : ℕ) → length (zeros n) ≡ n
length-zeros zero = refl
length-zeros (suc n) = ap suc (length-zeros n)

pub length-left_pad : (size : ℕ) (xs : List ℕ) → length xs ≤ size → length (left_pad size xs) ≡ size
unfolding left_pad
length-left_pad size xs h =
    omega (arith, length-append (zeros (size - length xs)) xs, length-zeros (size - length xs))

big_endian-bytes_within : (bound n : ℕ) → n ≤ bound → big_endian 0 (bytes_within bound n) ≡ n
unfolding bytes_within big_endian
big_endian-bytes_within zero n h = omega arith
big_endian-bytes_within (suc bound) zero h = refl
big_endian-bytes_within (suc bound) (suc n) h =
    let rest = big_endian-bytes_within bound (suc n / 256) (omega arith) in
    rw (big_endian-append 0 (bytes_within bound (suc n / 256)) ((suc n % 256) ∷ []), rest) omega
      arith

length-bytes_within : (size bound n : ℕ) → n < 256 ^ size → length (bytes_within bound n) ≤ size
unfolding bytes_within
length-bytes_within size zero n h = omega arith
length-bytes_within size (suc bound) zero h = omega arith
length-bytes_within zero (suc bound) (suc n) h = omega arith
length-bytes_within (suc size) (suc bound) (suc n) h =
    let smaller : suc n / 256 < 256 ^ size = omega arith in
    let rest = length-bytes_within size bound (suc n / 256) smaller in
    omega (arith, rest, length-append (bytes_within bound (suc n / 256)) ((suc n % 256) ∷ []))

pub big_endian-big_bytes : (n : ℕ) → big_endian 0 (big_bytes (pos n)) ≡ n
unfolding big_bytes
big_endian-big_bytes n = big_endian-bytes_within (n + 0) (n + 0) (omega arith) ∙ omega arith

pub length-big_bytes : (size n : ℕ) → n < 256 ^ size → length (big_bytes (pos n)) ≤ size
unfolding big_bytes
length-big_bytes size n h = length-bytes_within size (n + 0) (n + 0) (omega arith)

-- A slice behind what stands before it, and within the next part.
pub slice-append :
    (before part rest : List ℕ)
    → slice (length before) (length before + length part) (before ++ (part ++ rest)) ≡ some part
unfolding slice
slice-append before part rest =
    let fits : leb (length before + length part) (length (before ++ (part ++ rest))) ≡ true =
      ground (arith, length-append before (part ++ rest), length-append part rest) in
    let size : length before + length part - length before ≡ length part = omega arith in
    rw (fits, size, drop-append_length before (part ++ rest), take-append_length part rest) refl
