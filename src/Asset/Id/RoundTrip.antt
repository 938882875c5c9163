-- ===== src/Asset/Id/RoundTrip.antt =====
-- asset.go: the identifier of an asset reads back as the pair that it was made of.
use crosschain_enhanced_by_a.Prelude.{
  Bool, true, false, not, ◌&&◌, List, [], ◌∷◌, ◌++◌, ◌≡◌, ◌⊎◌, inl, inr, refl, ap, arith, ◌==◌,
  Bool-cases,
}
use crosschain_enhanced_by_a.Prelude.Text.{
  Text, codes, eq_text, eq_text_iff, eq_text_refl, is_empty, one_of, split,
}
use crosschain_enhanced_by_a.Asset.{
  asset_type, asset_type_native, asset_type_token, utxo_chains, account_chains,
}
use crosschain_enhanced_by_a.Asset.Id.{is_native, parse_asset_and_native, format_id, get_asset_id}

-- No dot is in the text.
unfoldable pub dotless : Text → Bool
dotless [] = true
dotless (x ∷ s) = not (x == b'.') && dotless s

split-dotless : (s : Text) → dotless s ≡ true → split b'.' s ≡ s ∷ []
unfolding dotless split
split-dotless [] h = refl
split-dotless (x ∷ s) h = ground (arith, split-dotless s)

split_joined :
    (s t : Text)
    → dotless s ≡ true
    → dotless t ≡ true
    → split b'.' (s ++ (codes "." ++ t)) ≡ s ∷ t ∷ []
unfolding dotless split
split_joined [] t h k = ground (arith, split-dotless t)
split_joined (x ∷ s) t h k = ground (arith, split_joined s t)

-- What holds of each name of a list holds of a text that is one of them.
check : (Text → Bool) → List Text → Bool
check p [] = true
check p (x ∷ xs) = p x && check p xs

one_of-check :
    (p : Text → Bool) (xs : List Text) (a : Text)
    → check p xs ≡ true
    → one_of a xs ≡ true
    → p a ≡ true
unfolding check one_of
one_of-check p [] a h m = cc
one_of-check p (x ∷ xs) a h m = elim (Bool-cases (eq_text a x)) [
  | inl e ↦ rw ((eq_text_iff a x).0 e) (ground arith)
  | inr e ↦ one_of-check p xs a (ground arith) (ground arith)
]

is_name : Text → Bool
is_name a = dotless a && not (is_empty a)

names_checked : (check is_name utxo_chains ≡ true) × (check is_name account_chains ≡ true)
unfolding check is_name dotless
names_checked = (refl, refl)

is_native-is_name : (a : Text) → is_native a ≡ true → is_name a ≡ true
unfolding is_native asset_type
is_native-is_name a h = ground (
  arith,
  one_of-check is_name utxo_chains a names_checked.0,
  one_of-check is_name account_chains a names_checked.1,
  eq_text_iff asset_type_token asset_type_native,
)

is_native-dotless : (a : Text) → is_native a ≡ true → dotless a ≡ true
unfolding is_name
is_native-dotless a h = ground (arith, is_native-is_name a h)

is_native-not_empty : (a : Text) → is_native a ≡ true → is_empty a ≡ false
unfolding is_name
is_native-not_empty a h = ground (arith, is_native-is_name a h)

format_id_joined : (a n : Text) → eq_text a n ≡ false → format_id a n ≡ a ++ (codes "." ++ n)
unfolding format_id
format_id_joined a n h = elim (Bool-cases (eq_text n (codes "ETH"))) [
  | inl e ↦ rw h (rw ((eq_text_iff n (codes "ETH")).0 e) (ground arith))
  | inr e ↦ rw (h, e) refl
]

format_id_same : (a : Text) → format_id a a ≡ a
unfolding format_id
format_id_same a = rw (eq_text_refl a) refl

joined_not_empty : (a n : Text) → is_empty (a ++ (codes "." ++ n)) ≡ false
joined_not_empty [] n = refl
joined_not_empty (x ∷ a) n = refl

parse_joined :
    (a n : Text)
    → dotless a ≡ true
    → is_native n ≡ true
    → parse_asset_and_native (a ++ (codes "." ++ n)) [] ≡ (a, n)
unfolding parse_asset_and_native
parse_joined a n h k = ground (
  arith,
  joined_not_empty a n,
  split_joined a n h,
  is_native-dotless n k,
  is_native-not_empty n k,
)

parse_native : (n : Text) → is_native n ≡ true → parse_asset_and_native n [] ≡ (n, n)
unfolding parse_asset_and_native
parse_native n k = ground (arith, split-dotless n (is_native-dotless n k), is_native-not_empty n k)

reparse :
    (a n : Text)
    → dotless a ≡ true
    → is_native n ≡ true
    → parse_asset_and_native (format_id a n) [] ≡ (a, n)
reparse a n h k = elim (Bool-cases (eq_text a n)) [
  | inl e ↦ let same = (eq_text_iff a n).0 e in rw same (rw (format_id_same n) (parse_native n k))
  | inr e ↦ rw (format_id_joined a n e) (parse_joined a n h k)
]

-- What a caller may give as the chain: nothing, or a native asset.
abbrev pub IsChain : Text → Type 0
IsChain n = (n ≡ []) ⊎ (is_native n ≡ true)

eth_is_native : is_native (codes "ETH") ≡ true
unfolding is_native asset_type one_of eq_text
eth_is_native = refl

-- The pair that is parsed from a name with no dot has no dot in its symbol, and a native chain.
parse_dotless :
    (a n : Text)
    → dotless a ≡ true
    → IsChain n
    → (parse_asset_and_native a n ≡ ([], []))
      ⊎ ((dotless (parse_asset_and_native a n).0 ≡ true)
          × (is_native (parse_asset_and_native a n).1 ≡ true))
unfolding parse_asset_and_native
parse_dotless [] [] h k = inl refl
parse_dotless [] (y ∷ m) h (inl e) = cc
parse_dotless [] (y ∷ m) h (inr k) = inr (
    ground
      (arith, split-dotless (y ∷ m) (is_native-dotless (y ∷ m) k), is_native-dotless (y ∷ m) k))
parse_dotless (x ∷ a) [] h k = inr (ground (arith, split-dotless (x ∷ a) h, eth_is_native))
parse_dotless (x ∷ a) (y ∷ m) h (inl e) = cc
parse_dotless (x ∷ a) (y ∷ m) h (inr k) = inr (ground (arith, split-dotless (x ∷ a) h))

-- For a symbol with no dot, and a chain that is native or left out, the identifier parses back to
-- the symbol and the chain that it was made of.
pub parse-get_asset_id :
    (a n : Text)
    → dotless a ≡ true
    → IsChain n
    → parse_asset_and_native (get_asset_id a n) [] ≡ parse_asset_and_native a n
parse-get_asset_id a n h k = elim (parse_dotless a n h k) [
  | inl e ↦ unfold get_asset_id in rw e (unfold parse_asset_and_native eq_text in refl)
  | inr (d, c) ↦ unfold get_asset_id in reparse _ _ d c
]

-- The identifier of an identifier is itself.
pub get_asset_id-get_asset_id :
    (a n : Text)
    → dotless a ≡ true
    → IsChain n
    → get_asset_id (get_asset_id a n) [] ≡ get_asset_id a n
get_asset_id-get_asset_id a n h k =
    unfold get_asset_id in ap (λ (p : Text × Text). format_id p.0 p.1) (parse-get_asset_id a n h k)
