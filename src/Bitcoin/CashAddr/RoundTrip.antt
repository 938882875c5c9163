-- ===== src/Bitcoin/CashAddr/RoundTrip.antt =====
-- chain/bitcoin/address.go: `DecodeBchAddress` reads what `encodeBchAddress` writes.
use crosschain_enhanced_by_a.Prelude.{
  ℕ, zero, suc, ◌-◌, ◌%◌, ◌≤◌, Bool, true, false, not, ◌&&◌, List, [], ◌∷◌, ◌++◌, Option, none,
  some, Result, ok, err, ◌≡◌, refl, sym, ap, ◌∙◌, ◌⊎◌, inl, inr, arith, ltb, ◌==◌, get_elem?,
  length, length-append, take, replicate, take-append_length, Bool-cases, Option-cases,
}
use crosschain_enhanced_by_a.Prelude.Text.{Text, split}
use crosschain_enhanced_by_a.Bitcoin.Failure.{Failure}
use crosschain_enhanced_by_a.Bitcoin.Params.{Params}
use crosschain_enhanced_by_a.Bitcoin.Codec.{Codec}
use crosschain_enhanced_by_a.Bitcoin.CashAddr.{
  alphabet, encode_to_bch_string, append_checksum, checksum_groups, address_prefix, without_prefix,
  checked_bytes, version_fits, decode_cash_address, encode_bch_address, poly_mod, encode_prefix,
}
use crosschain_enhanced_by_a.Bitcoin.CashAddr.Alphabet.{
  decode-encode_to_bch_string, written, none_written, rest_written,
}
use crosschain_enhanced_by_a.Bitcoin.CashAddr.Checksum.{verify-append_checksum}

-- No character of a text is a colon.
no_colon : List ℕ → Bool
no_colon [] = true
no_colon (c ∷ cs) = not (c == b':') && no_colon cs

alphabet-no_colon : no_colon alphabet ≡ true
unfolding no_colon
alphabet-no_colon = refl

get_elem?-no_colon :
    (cs : List ℕ) (d c : ℕ) → no_colon cs ≡ true → get_elem? cs d ≡ some c → (c == b':') ≡ false
unfolding no_colon
get_elem?-no_colon [] d c h g = cc
get_elem?-no_colon (x ∷ cs) zero c h g = ground (arith, h, g)
get_elem?-no_colon (x ∷ cs) (suc d) c h g = get_elem?-no_colon cs d c (ground (arith, h)) g

split-no_colon : (t : Text) → no_colon t ≡ true → split b':' t ≡ t ∷ []
unfolding no_colon split
split-no_colon [] h = refl
split-no_colon (c ∷ t) h = ground (arith, h, split-no_colon t)

written-no_colon : (ds : List ℕ) (t : Text) → encode_to_bch_string ds ≡ some t → no_colon t ≡ true
unfolding encode_to_bch_string no_colon
written-no_colon [] [] e = refl
written-no_colon [] (c ∷ t) e = cc
written-no_colon (d ∷ ds) t e = elim (Option-cases (get_elem? alphabet d)) [
  | inl n ↦ absurd (none_written d ds t n e)
  | inr c ↦ elim (Option-cases (encode_to_bch_string ds)) [
    | inl n ↦ absurd (rest_written d ds t c.0 c.1 n e)
    | inr w ↦
        rw
          (
            written d ds t c.0 w.0 c.1 w.1 e,
            get_elem?-no_colon alphabet d c.0 alphabet-no_colon c.1,
          )
          (written-no_colon ds w.0 w.1)
  ]
]

checksum_groups-length : (n m : ℕ) → length (checksum_groups n m) ≡ n
unfolding checksum_groups
checksum_groups-length zero m = refl
checksum_groups-length (suc n) m = ap suc (checksum_groups-length n m)

-- What is left of the symbols without the last eight is the payload.
take-append_checksum :
    (prefix : Text) (payload : List ℕ)
    → (take (length (append_checksum prefix payload) - 8) (append_checksum prefix payload)
        ≡ payload)
      × (8 ≤ length (append_checksum prefix payload))
unfolding append_checksum
take-append_checksum prefix payload =
    let sum = checksum_groups 8 (poly_mod ((encode_prefix prefix ++ payload) ++ replicate 8 0)) in
    let eight =
      checksum_groups-length 8 (poly_mod ((encode_prefix prefix ++ payload) ++ replicate 8 0)) in
    let total = length-append payload sum in
    let size : length (payload ++ sum) - 8 ≡ length payload = omega (arith, eight, total) in
    (
      ap (λ n. take n (payload ++ sum)) size ∙ take-append_length payload sum,
      omega (arith, eight, total),
    )

-- The chain of tests of `encodeBchAddress`.
abbrev last_of : Option Text → Result Failure Text
last_of none = err Failure.panic
last_of (some addr) = ok addr

last_of-eq_ok : (o : Option Text) (addr : Text) → last_of o ≡ ok addr → o ≡ some addr
last_of-eq_ok none addr e = cc
last_of-eq_ok (some a) addr e = cc

abbrev chain :
    Bool → Option (List ℕ) → Option Text → (List ℕ → Text → Option Text) → Result Failure Text
chain false o p f = err Failure.invalid_version
chain true none p f = err Failure.bad_bits
chain true (some symbols) none f = err Failure.panic
chain true (some symbols) (some prefix) f = last_of (f symbols prefix)

chain-eq_ok :
    (b : Bool) (o : Option (List ℕ)) (p : Option Text) (f : List ℕ → Text → Option Text)
    (addr : Text)
    → chain b o p f ≡ ok addr
    → (symbols : List ℕ) × (prefix : Text) × (o ≡ some symbols)
      × (p ≡ some prefix)
      × (f symbols prefix ≡ some addr)
chain-eq_ok false o p f addr e = cc
chain-eq_ok true none p f addr e = cc
chain-eq_ok true (some symbols) none f addr e = cc
chain-eq_ok true (some symbols) (some prefix) f addr e =
    (symbols, prefix, refl, refl, last_of-eq_ok (f symbols prefix) addr e)

checked :
    (version : ℕ) (hash : List ℕ)
    → (version ≡ 0) ⊎ (version ≡ 8)
    → length hash ≡ 20
    → checked_bytes (version ∷ hash) ≡ ok (version ∷ hash)
unfolding checked_bytes
checked version hash known size = ground (arith, known, size)

module _ (lib : Codec) where
  -- Regrouping bytes by five bits, and the result by eight, gives the bytes back.
  abbrev pub Regroups : List ℕ → Type 0
  Regroups bytes =
      (symbols : List ℕ)
      → lib.convert_bits bytes 8 5 true ≡ some symbols
      → lib.convert_bits symbols 5 8 false ≡ some bytes

  read_symbols :
      (params : Params) (prefix addr : Text) (symbols bytes : List ℕ)
      → address_prefix params ≡ some prefix
      → encode_to_bch_string (append_checksum prefix symbols) ≡ some addr
      → lib.convert_bits symbols 5 8 false ≡ some bytes
      → decode_cash_address lib addr params ≡ checked_bytes bytes
  unfolding decode_cash_address without_prefix
  read_symbols params prefix addr symbols bytes p w c =
      let parts = split-no_colon addr (written-no_colon (append_checksum prefix symbols) addr w) in
      let decoded = decode-encode_to_bch_string (append_checksum prefix symbols) addr w in
      let cut = take-append_checksum prefix symbols in
      let long : ltb (length (append_checksum prefix symbols)) 8 ≡ false = ground (arith, cut.1) in
      rw (decode_cash_address, p, parts, decoded, verify-append_checksum, long, cut.0, c) refl

  encode-chain :
      (params : Params) (version : ℕ) (hash : List ℕ)
      → encode_bch_address lib version hash params
        ≡ chain
            (version_fits (length hash) (version % 8))
            (lib.convert_bits (version ∷ hash) 8 5 true)
            (address_prefix params)
            (λ symbols prefix. encode_to_bch_string (append_checksum prefix symbols))
  unfolding encode_bch_address
  encode-chain params version hash = elim (Bool-cases (version_fits (length hash) (version % 8))) [
    | inr h ↦ rw (encode_bch_address, h) refl
    | inl h ↦ elim (Option-cases (lib.convert_bits (version ∷ hash) 8 5 true)) [
      | inl n ↦ rw (encode_bch_address, h, n) refl
      | inr s ↦ elim (Option-cases (address_prefix params)) [
        | inl n ↦ rw (encode_bch_address, h, s.1, n) refl
        | inr p ↦ elim (Option-cases (encode_to_bch_string (append_checksum p.0 s.0))) [
          | inl n ↦ rw (encode_bch_address, h, s.1, p.1, n) refl
          | inr w ↦ rw (encode_bch_address, h, s.1, p.1, w.1) refl
        ]
      ]
    ]
  ]

  encode-eq_ok :
      (params : Params) (version : ℕ) (hash : List ℕ) (addr : Text)
      → encode_bch_address lib version hash params ≡ ok addr
      → (symbols : List ℕ) × (prefix : Text) × (lib.convert_bits (version ∷ hash) 8 5 true
          ≡ some symbols)
        × (address_prefix params ≡ some prefix)
        × (encode_to_bch_string (append_checksum prefix symbols) ≡ some addr)
  encode-eq_ok params version hash addr e =
      chain-eq_ok (version_fits (length hash) (version % 8))
        (lib.convert_bits (version ∷ hash) 8 5 true) (address_prefix params)
        (λ symbols prefix. encode_to_bch_string (append_checksum prefix symbols)) addr
        (sym (encode-chain params version hash) ∙ e)

  -- An address that `encodeBchAddress` writes for the version 0 or 8 and a hash of 20 bytes is read
  -- back as the version and the hash, where regrouping their bits can be undone.
  pub decode-encode_bch_address :
      (params : Params) (version : ℕ) (hash : List ℕ) (addr : Text)
      → Regroups (version ∷ hash)
      → (version ≡ 0) ⊎ (version ≡ 8)
      → length hash ≡ 20
      → encode_bch_address lib version hash params ≡ ok addr
      → decode_cash_address lib addr params ≡ ok (version ∷ hash)
  decode-encode_bch_address params version hash addr regroups known size e =
      let (symbols, prefix, bits, p, w) = encode-eq_ok params version hash addr e in
      read_symbols params prefix addr symbols (version ∷ hash) p w (regroups symbols bits)
      ∙ checked version hash known size
