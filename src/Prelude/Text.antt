-- ===== src/Prelude/Text.antt =====
-- Go strings as their bytes, and what the program uses of the package `strings`.
use Prim.Native.Char.{code}
use Prim.Native.Nat.{ℕ, ◌+◌}
use Prim.Native.String.{String}
use mathlib.Core.Path.{◌≡◌, refl}
use mathlib.Core.Bool.{Bool, true, false, ◌&&◌, ◌||◌}
use mathlib.Core.List.{List, [], ◌∷◌, ◌++◌, map, reverse}
use mathlib.Core.Logic.{◌↔◌}
use native.Mathlib.Omega.{arith}
use crosschain_enhanced_by_a.Prelude.Tests.{◌==◌, leb, if◌then◌else◌}
use crosschain_enhanced_by_a.Prelude.Lists.{length, drop}

abbrev pub Text : Type 0
Text = List ℕ

-- The bytes of an ASCII literal.
abbrev pub codes : String → Text
codes String.[] = []
codes (String.◌∷◌ c s) = code c ∷ codes s

-- `==` on strings.
unfoldable pub eq_text : Text → Text → Bool
eq_text [] [] = true
eq_text (x ∷ a) (y ∷ b) = x == y && eq_text a b
eq_text _ _ = false

pub eq_text_iff : (a b : Text) → (eq_text a b ≡ true) ↔ (a ≡ b)
unfolding eq_text
eq_text_iff (x ∷ a) (y ∷ b) = ground (arith, eq_text_iff a b)
eq_text_iff _ _ = ground arith

pub eq_text_refl : (a : Text) → eq_text a a ≡ true
eq_text_refl a = (eq_text_iff a a).1 refl

abbrev pub is_empty : Text → Bool
is_empty [] = true
is_empty (x ∷ a) = false

-- The test of a `switch` case with several values.
unfoldable pub one_of : Text → List Text → Bool
unfolding eq_text
one_of a [] = false
one_of a (b ∷ bs) = eq_text a b || one_of a bs

-- `strings.HasPrefix(s, p)`
unfoldable pub has_prefix : Text → Text → Bool
has_prefix [] p = is_empty p
has_prefix (x ∷ s) [] = true
has_prefix (x ∷ s) (y ∷ p) = x == y && has_prefix s p

-- `strings.Contains(s, p)`
unfoldable pub contains : Text → Text → Bool
unfolding has_prefix
contains [] p = is_empty p
contains (x ∷ s) p = has_prefix (x ∷ s) p || contains s p

-- `strings.TrimPrefix(s, p)`
unfoldable pub trim_prefix : Text → Text → Text
unfolding has_prefix
trim_prefix s p = if has_prefix s p then drop (length p) s else s

unfoldable pub lower_byte : ℕ → ℕ
lower_byte c = if leb b'A' c && leb c b'Z' then c + 32 else c

-- `strings.ToLower(s)` on ASCII
unfoldable pub to_lower : Text → Text
unfolding lower_byte
to_lower = map lower_byte

-- `strings.EqualFold(s, t)` on ASCII
unfoldable pub equal_fold : Text → Text → Bool
unfolding to_lower eq_text
equal_fold s t = eq_text (to_lower s) (to_lower t)

-- `strings.Split(s, sep)`, for a separator of one byte
abbrev pub onto_head : ℕ → List Text → List Text
onto_head x [] = (x ∷ []) ∷ []
onto_head x (w ∷ ws) = (x ∷ w) ∷ ws

unfoldable pub split : ℕ → Text → List Text
split sep [] = [] ∷ []
split sep (x ∷ s) = let rest = split sep s in if x == sep then [] ∷ rest else onto_head x rest

-- `strings.Split(s, sep)`, for a separator of two bytes
unfoldable pub split_two : ℕ → ℕ → Text → List Text
split_two a b [] = [] ∷ []
split_two a b (x ∷ []) = (x ∷ []) ∷ []
split_two a b (x ∷ y ∷ s) =
    let here = [] ∷ split_two a b s in
    let there = onto_head x (split_two a b (y ∷ s)) in if x == a && y == b then here else there

-- The spaces of `strings.TrimSpace`, in ASCII.
unfoldable pub is_space : ℕ → Bool
is_space c = c == 32 || (leb 9 c && leb c 13)

unfoldable pub trim_left : Text → Text
unfolding is_space
trim_left [] = []
trim_left (x ∷ s) = let rest = trim_left s in if is_space x then rest else x ∷ s

-- `strings.TrimSpace(s)` on ASCII
unfoldable pub trim_space : Text → Text
unfolding trim_left
trim_space s = reverse (trim_left (reverse (trim_left s)))

-- `strings.Replace(s, old, new, 1)`, for an `old` that is not empty
unfoldable pub replace_first : Text → Text → Text → Text
unfolding has_prefix
replace_first [] old new = []
replace_first (x ∷ s) old new =
    let rest = x ∷ replace_first s old new in
    if has_prefix (x ∷ s) old then new ++ drop (length old) (x ∷ s) else rest
