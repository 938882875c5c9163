-- ===== src/Bitcoin/CashAddr/Alphabet.antt =====
-- chain/bitcoin/address.go: `DecodeBchString` reads what `EncodeToBchString` writes.
use crosschain_enhanced_by_a.Prelude.{
  ℕ, zero, suc, ◌+◌, Bool, true, ◌&&◌, List, [], ◌∷◌, map, none, some, ◌≡◌, refl, ap, ap₂, ◌∙◌,
  arith, ◌==◌, get_elem?, inl, inr, Option-cases,
}
use crosschain_enhanced_by_a.Prelude.Text.{Text}
use crosschain_enhanced_by_a.Bitcoin.CashAddr.{
  alphabet, index_in, reverse_lookup, decode_bch_string, encode_to_bch_string,
}

-- From the place `i` on, each character is found at its place.
found_from : List ℕ → ℕ → Bool
found_from [] i = true
found_from (c ∷ cs) i = (reverse_lookup c == i) && found_from cs (suc i)

all_found : found_from alphabet 0 ≡ true
unfolding found_from reverse_lookup index_in
all_found = refl

found_from-get_elem? :
    (cs : List ℕ) (i d c : ℕ)
    → found_from cs i ≡ true
    → get_elem? cs d ≡ some c
    → reverse_lookup c ≡ i + d
unfolding found_from
found_from-get_elem? [] i d c h g = cc
found_from-get_elem? (x ∷ cs) i zero c h g = ground (arith, h, g)
found_from-get_elem? (x ∷ cs) i (suc d) c h g =
    let rest = found_from-get_elem? cs (suc i) d c (ground (arith, h)) g in omega (arith, rest)

pub none_written :
    (d : ℕ) (ds : List ℕ) (t : Text)
    → get_elem? alphabet d ≡ none
    → encode_to_bch_string (d ∷ ds) ≡ some t
    → ⊥
unfolding encode_to_bch_string
none_written d ds t n e = ground (arith, n, e)

pub rest_written :
    (d : ℕ) (ds : List ℕ) (t : Text) (c : ℕ)
    → get_elem? alphabet d ≡ some c
    → encode_to_bch_string ds ≡ none
    → encode_to_bch_string (d ∷ ds) ≡ some t
    → ⊥
unfolding encode_to_bch_string
rest_written d ds t c g n e = ground (arith, g, n, e)

pub written :
    (d : ℕ) (ds : List ℕ) (t : Text) (c : ℕ) (w : Text)
    → get_elem? alphabet d ≡ some c
    → encode_to_bch_string ds ≡ some w
    → encode_to_bch_string (d ∷ ds) ≡ some t
    → t ≡ c ∷ w
unfolding encode_to_bch_string
written d ds t c w g n e = ground (arith, g, n, e)

-- If symbols are written, reading them gives them back.
pub decode-encode_to_bch_string :
    (ds : List ℕ) (t : Text) → encode_to_bch_string ds ≡ some t → decode_bch_string t ≡ ds
unfolding encode_to_bch_string decode_bch_string
decode-encode_to_bch_string [] [] e = refl
decode-encode_to_bch_string [] (c ∷ t) e = cc
decode-encode_to_bch_string (d ∷ ds) t e = elim (Option-cases (get_elem? alphabet d)) [
  | inl n ↦ absurd (none_written d ds t n e)
  | inr c ↦ elim (Option-cases (encode_to_bch_string ds)) [
    | inl n ↦ absurd (rest_written d ds t c.0 c.1 n e)
    | inr w ↦
        ap (map reverse_lookup) (written d ds t c.0 w.0 c.1 w.1 e)
        ∙ ap₂ ◌∷◌ (omega (arith, found_from-get_elem? alphabet 0 d c.0 all_found c.1))
            (decode-encode_to_bch_string ds w.0 w.1)
  ]
]
