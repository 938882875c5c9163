-- ===== src/Evm/Number.antt =====
-- chain/evm/task.go: how it reads a text of the configuration as bytes or as a number, through
-- encoding/hex and math/big.
use crosschain_enhanced_by_a.Prelude.{
  ℕ, ◌+◌, ◌-◌, ◌*◌, ◌&&◌, List, [], ◌∷◌, Option, none, some, if◌then◌else◌, leb, ◌==◌, drop,
}
use mathlib.Core.Option as Option
use crosschain_enhanced_by_a.Prelude.Int.{ℤ, pos}
use crosschain_enhanced_by_a.Prelude.Text.{Text}

-- A hexadecimal digit, of either case.
unfoldable pub hex_value : ℕ → Option ℕ
hex_value c =
    if leb b'0' c && leb c b'9'
    then some (c - b'0')
    else if leb b'a' c && leb c b'f'
    then some (c - b'a' + 10)
    else if leb b'A' c && leb c b'F'
    then some (c - b'A' + 10)
    else none

-- `hex.DecodeString`
unfoldable pub hex_decode : Text → Option (List ℕ)
unfolding hex_value
hex_decode [] = some []
hex_decode (x ∷ []) = none
hex_decode (x ∷ y ∷ s) =
    let rest = hex_decode s in
    elim (hex_value x) [
      | none ↦ none
      | some a ↦ elim (hex_value y) [
        | none ↦ none
        | some b ↦ Option.map (λ (bs : List ℕ). (16 * a + b) ∷ bs) rest
      ]
    ]

-- What stands before the next character of a number: the prefix, a digit, or an underscore.
pub data Before : Type 0 where
  prefix digit underscore : Before

-- The digits behind `0x`. An underscore stands between the prefix or a digit and a digit.
unfoldable pub hex_digits_value : Before → ℕ → Text → Option ℕ
unfolding hex_value
hex_digits_value digit acc [] = some acc
hex_digits_value prefix acc [] = none
hex_digits_value underscore acc [] = none
hex_digits_value before acc (c ∷ s) = elim (hex_value c) [
  | some d ↦ hex_digits_value digit (16 * acc + d) s
  | none ↦
      let rest = hex_digits_value underscore acc s in
      elim before [ underscore ↦ none | _ ↦ if c == b'_' then rest else none ]
]

-- `big.Int.SetString(s, 0)`, for a text with the prefix `0x`
unfoldable pub set_hex_string : Text → Option ℤ
unfolding hex_digits_value
set_hex_string s = Option.map pos (hex_digits_value prefix 0 (drop 2 s))
