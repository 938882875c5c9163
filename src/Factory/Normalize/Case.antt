-- ===== src/Factory/Normalize/Case.antt =====
-- factory/main.go: `NormalizeAddressString` forgets the case of the letters of a 0x address.
use mathlib.Core.List.{reverse, reverse-append, reverse-cons, map-append}
use crosschain_enhanced_by_a.Prelude.{
  ℕ, true, false, [], ◌∷◌, ◌++◌, ◌≡◌, refl, sym, ap, ◌∙◌, arith, append_assoc, inl, inr, Bool-cases,
}
use crosschain_enhanced_by_a.Prelude.Text.{
  Text, codes, eq_text, is_empty, one_of, has_prefix, to_lower, lower_byte, is_space, trim_left,
  trim_space,
}
use crosschain_enhanced_by_a.Factory.Normalize.{hex_chains, normalize_address_string}

reverse-to_lower : (s : Text) → reverse (to_lower s) ≡ to_lower (reverse s)
unfolding to_lower
reverse-to_lower [] = refl
reverse-to_lower (c ∷ s) =
    rw (reverse-cons, reverse-cons, map-append)
      (ap (λ w. w ++ lower_byte c ∷ []) (reverse-to_lower s))

lower_byte-is_space : (c : ℕ) → is_space (lower_byte c) ≡ is_space c
unfolding lower_byte is_space
lower_byte-is_space c = ground arith

trim_left-to_lower : (s : Text) → trim_left (to_lower s) ≡ to_lower (trim_left s)
unfolding trim_left to_lower
trim_left-to_lower [] = refl
trim_left-to_lower (c ∷ s) = elim (Bool-cases (is_space c)) [
  | inl e ↦ rw (lower_byte-is_space c, e) (trim_left-to_lower s)
  | inr e ↦ rw (lower_byte-is_space c, e) refl
]

-- Letters in lower case and the spaces around a text do not meet.
pub trim_space-to_lower : (s : Text) → trim_space (to_lower s) ≡ to_lower (trim_space s)
unfolding trim_space
trim_space-to_lower s =
    ap (λ w. reverse (trim_left (reverse w))) (trim_left-to_lower s)
    ∙ ap (λ w. reverse (trim_left w)) (reverse-to_lower (trim_left s))
    ∙ ap reverse (trim_left-to_lower (reverse (trim_left s)))
    ∙ reverse-to_lower (trim_left (reverse (trim_left s)))

-- Up to a byte that is no space, trimming on the left only takes bytes away in front of it.
trim_left-until :
    (s : Text) (c : ℕ) (rest : Text)
    → is_space c ≡ false
    → (w : Text) × (trim_left (s ++ c ∷ rest) ≡ w ++ c ∷ rest)
unfolding trim_left
trim_left-until [] c rest e = ([], rw e refl)
trim_left-until (x ∷ s) c rest e = elim (Bool-cases (is_space x)) [
  | inl h ↦ (let more = trim_left-until s c rest e in (more.0, rw h more.1))
  | inr h ↦ (x ∷ s, rw h refl)
]

abbrev hex : Text → Text
hex s = codes "0x" ++ s

reverse-hex : (s : Text) → reverse (hex s) ≡ reverse s ++ b'x' ∷ b'0' ∷ []
reverse-hex s = rw (reverse-cons, reverse-cons) (append_assoc (reverse s) (b'x' ∷ []) (b'0' ∷ []))

trim_space-hex : (s : Text) → (w : Text) × (trim_space (hex s) ≡ hex w)
unfolding trim_space trim_left is_space
trim_space-hex s =
    let cut = trim_left-until (reverse s) b'x' (b'0' ∷ []) refl in
    (
      reverse cut.0,
      ap (λ w. reverse (trim_left w)) (reverse-hex s)
          ∙ ap reverse cut.1
          ∙ reverse-append cut.0 (b'x' ∷ b'0' ∷ []),
    )

has_prefix-nil : (s : Text) → has_prefix s [] ≡ true
unfolding has_prefix
has_prefix-nil [] = refl
has_prefix-nil (c ∷ s) = refl

no_hex_chain : (P : Type 0) → one_of [] hex_chains ≡ true → P
unfolding one_of eq_text
no_hex_chain P h = cc

normalize-hex :
    (s native : Text)
    → one_of native hex_chains ≡ true
    → is_empty native ≡ false
    → normalize_address_string (hex s) native ≡ trim_space (to_lower (hex s))
unfolding normalize_address_string has_prefix
normalize-hex s native h n =
    let trimmed = trim_space-hex s in rw (n, h, trim_space-to_lower, trimmed.1, has_prefix-nil) refl

-- On a chain with hexadecimal addresses, two addresses after 0x whose letters differ at most in
-- their case are normalized to the same address.
pub normalize_address_string-case :
    (s t native : Text)
    → one_of native hex_chains ≡ true
    → to_lower s ≡ to_lower t
    → normalize_address_string (codes "0x" ++ s) native
      ≡ normalize_address_string (codes "0x" ++ t) native
unfolding to_lower
normalize_address_string-case s t [] h e = no_hex_chain _ h
normalize_address_string-case s t (c ∷ cs) h e =
    normalize-hex s (c ∷ cs) h refl
    ∙ ap (λ w. trim_space (codes "0x" ++ w)) e
    ∙ sym (normalize-hex t (c ∷ cs) h refl)
