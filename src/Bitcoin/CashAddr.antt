-- ===== src/Bitcoin/CashAddr.antt =====
-- chain/bitcoin/address.go: the address format of Bitcoin Cash. Bytes and symbols are numbers;
-- the checksum works on uint64. A character is a byte, as for every ASCII text.
pub mod Alphabet
pub mod Digits
pub mod Checksum
pub mod RoundTrip
use Prim.Native.Nat.{bit_and, bit_xor}
use crosschain_enhanced_by_a.Prelude.{
  ℕ, zero, suc, ◌+◌, ◌-◌, ◌*◌, ◌/◌, ◌%◌, ◌^◌, Bool, true, false, not, ◌&&◌, List, [], ◌∷◌, ◌++◌,
  map, Option, none, some, Result, ok, err, if◌then◌else◌, ltb, ◌==◌, length, get_elem?, take,
  replicate,
}
use crosschain_enhanced_by_a.Prelude.Text.{Text, codes, split}
use crosschain_enhanced_by_a.Bitcoin.Failure.{Failure}
use crosschain_enhanced_by_a.Bitcoin.Params.{Coin, Network, Params, contents}
use crosschain_enhanced_by_a.Bitcoin.Codec.{AddrKind, Codec}

-- `Alphabet`
abbrev pub alphabet : Text
alphabet = codes "qpzry9x8gf2tvdw0s3jn54khce6mua7l"

-- `AlphabetReverseLookup[c]`: a character that is not in the map gives the zero byte.
unfoldable pub index_in : Text → ℕ → ℕ → ℕ
index_in [] i c = 0
index_in (x ∷ xs) i c = let rest = index_in xs (i + 1) c in if x == c then i else rest

unfoldable pub reverse_lookup : ℕ → ℕ
unfolding index_in
reverse_lookup c = index_in alphabet 0 c

-- `DecodeBchString`
unfoldable pub decode_bch_string : Text → List ℕ
unfolding reverse_lookup
decode_bch_string = map reverse_lookup

-- `EncodeToBchString`; `none` is the panic of an index past the alphabet.
unfoldable pub encode_to_bch_string : List ℕ → Option Text
encode_to_bch_string [] = some []
encode_to_bch_string (d ∷ ds) = elim (get_elem? alphabet d) [
  | none ↦ none
  | some c ↦ elim (encode_to_bch_string ds) [ none ↦ none | some cs ↦ some (c ∷ cs) ]
]

-- One of the tests `if c0&bit > 0 { c ^= generator }`.
unfoldable pub mix : ℕ → ℕ → ℕ → ℕ → ℕ
mix c0 bit generator c = if ltb 0 (bit_and c0 bit) then bit_xor c generator else c

-- A round of `PolyMod`: `c0 := byte(c >> 35); c = ((c & 0x07ffffffff) << 5) ^ uint64(d)`, and the
-- five tests.
unfoldable pub poly_step : ℕ → ℕ → ℕ
unfolding mix
poly_step c d =
    let c0 = c / 2 ^ 35 % 2 ^ 8 in
    let c1 = bit_xor (bit_and c 0x07ffffffff * 2 ^ 5 % 2 ^ 64) d in
    let c2 = mix c0 0x01 0x98f2bc8e61 c1 in
    let c3 = mix c0 0x02 0x79b76d99e2 c2 in
    let c4 = mix c0 0x04 0xf33e5fb3c4 c3 in
    let c5 = mix c0 0x08 0xae2eabe2a8 c4 in mix c0 0x10 0x1e4f43e470 c5

-- The loop of `PolyMod`.
unfoldable pub poly_loop : ℕ → List ℕ → ℕ
unfolding poly_step
poly_loop c [] = c
poly_loop c (d ∷ ds) = poly_loop (poly_step c d) ds

-- `PolyMod`
unfoldable pub poly_mod : List ℕ → ℕ
unfolding poly_loop
poly_mod v = bit_xor (poly_loop 1 v) 1

-- `EncodePrefix`
unfoldable pub encode_prefix : Text → List ℕ
encode_prefix prefix = map (λ b. bit_and b 0x1f) prefix ++ (0 ∷ [])

-- `VerifyChecksum`
unfoldable pub verify_checksum : Text → List ℕ → Bool
unfolding encode_prefix poly_mod
verify_checksum prefix payload = poly_mod (encode_prefix prefix ++ payload) == 0

-- The 8 groups of 5 bits of a checksum, the highest first: `byte((mod >> uint(5*(7-i))) & 0x1f)`
-- for `i` from `8 - n` to 7.
unfoldable pub checksum_groups : ℕ → ℕ → List ℕ
checksum_groups zero mod_value = []
checksum_groups (suc n) mod_value =
    bit_and (mod_value / 2 ^ (5 * n)) 0x1f % 2 ^ 8 ∷ checksum_groups n mod_value

-- `AppendBchChecksum`
unfoldable pub append_checksum : Text → List ℕ → List ℕ
unfolding encode_prefix poly_mod checksum_groups
append_checksum prefix payload =
    payload ++ checksum_groups 8 (poly_mod ((encode_prefix prefix ++ payload) ++ replicate 8 0))

-- `AddressPrefix`; the default of its `switch` panics.
unfoldable pub address_prefix : Params → Option Text
address_prefix p = elim p.coin [
  | Coin.bitcoin ↦ elim p.network [
    | Network.mainnet ↦ some (codes "bitcoincash")
    | Network.testnet ↦ some (codes "bchtest")
    | Network.regtest ↦ some (codes "bchreg")
  ]
  | Coin.dogecoin ↦ none
  | Coin.litecoin ↦ none
]

-- `addr = addrParts[1]`, where there is a colon.
unfoldable pub without_prefix : Text → List Text → Text
without_prefix addr (a ∷ b ∷ parts) = b
without_prefix addr parts = addr

-- `len(addrBytes) - 1` is `ripemd160.Size`, and the version byte is one that is known.
unfoldable pub checked_bytes : List ℕ → Result Failure (List ℕ)
checked_bytes [] = err Failure.unknown_size
checked_bytes (v ∷ hash) =
    if length hash == 20
    then (if v == 0
        then ok (v ∷ hash)
        else if v == 8
        then ok (v ∷ hash)
        else err Failure.unknown_address_type)
    else err Failure.unknown_size

-- `(len(hash)-20)/4 == int(version)%8`: the division of a negative int rounds towards 0.
unfoldable pub version_fits : ℕ → ℕ → Bool
version_fits size version =
    if ltb size 20 then (20 - size) / 4 == 0 && version == 0 else (size - 20) / 4 == version

module _ (lib : Codec) where
  open lib use {check_decode, base58_decode, decode_address, kind, convert_bits, btc_contents}

  -- `decodeLegacyAddress`
  unfoldable pub decode_legacy_address : Text → Params → Result Failure (List ℕ)
  unfolding contents
  decode_legacy_address addr params = elim (check_decode addr) [
    | none ↦ err Failure.bad_legacy_address
    | some (decoded, ver) ↦
        let c = contents btc_contents params in
        if not (length decoded == 20)
        then err Failure.bad_legacy_address
        else if ver == c.pub_key_hash_addr_id
        then ok (base58_decode addr)
        else if ver == c.script_hash_addr_id
        then ok (base58_decode addr)
        else err Failure.bad_legacy_address
  ]

  -- `DecodeBchAddress`, once `btcutil.DecodeAddress` has failed. `decoded[:len(decoded)-8]` panics
  -- on fewer than 8 symbols.
  unfoldable pub decode_cash_address : Text → Params → Result Failure (List ℕ)
  unfolding without_prefix decode_bch_string verify_checksum checked_bytes
  decode_cash_address addr params =
      let decoded = decode_bch_string (without_prefix addr (split b':' addr)) in
      elim (address_prefix params) [
        | none ↦ err Failure.panic
        | some prefix ↦
            if not (verify_checksum prefix decoded)
            then err Failure.checksum_mismatch
            else if ltb (length decoded) 8
            then err Failure.panic
            else elim (convert_bits (take (length decoded - 8) decoded) 5 8 false) [
              | none ↦ err Failure.bad_bits
              | some bytes ↦ checked_bytes bytes
            ]
      ]

  -- `DecodeBchAddress`
  unfoldable pub decode_bch_address : Text → Params → Result Failure (List ℕ)
  unfolding decode_legacy_address decode_cash_address
  decode_bch_address addr params = elim (decode_address addr params) [
    | some legacy ↦ elim (kind legacy) [
      | AddrKind.pub_key_hash ↦ decode_legacy_address addr params
      | AddrKind.script_hash ↦ decode_legacy_address addr params
      | AddrKind.pub_key ↦ decode_legacy_address addr params
      | AddrKind.witness_pub_key_hash ↦ err Failure.unsupported_segwit
      | AddrKind.witness_script_hash ↦ err Failure.unsupported_segwit
      | AddrKind.other ↦ err Failure.unsupported_legacy
    ]
    | none ↦ decode_cash_address addr params
  ]

  -- `encodeBchAddress`
  unfoldable pub encode_bch_address : ℕ → List ℕ → Params → Result Failure Text
  unfolding append_checksum encode_to_bch_string version_fits
  encode_bch_address version hash params =
      if not (version_fits (length hash) (version % 8))
      then err Failure.invalid_version
      else elim (convert_bits (version ∷ hash) 8 5 true) [
        | none ↦ err Failure.bad_bits
        | some symbols ↦ elim (address_prefix params) [
          | none ↦ err Failure.panic
          | some prefix ↦ elim (encode_to_bch_string (append_checksum prefix symbols)) [
            | none ↦ err Failure.panic
            | some addr ↦ ok addr
          ]
        ]
      ]

  -- `BchAddressFromBytes`; reading `addrBytes[0]` of no bytes is not reached.
  unfoldable pub bch_address_from_bytes : List ℕ → Params → Result Failure lib.Addr
  bch_address_from_bytes bytes params =
      let or_fail : Option lib.Addr → Result Failure lib.Addr =
        λ a. elim a [ none ↦ err Failure.undecodable_address | some x ↦ ok x ] in
      let based = or_fail (decode_address (lib.base58_encode bytes) params) in
      elim bytes [
        | [] ↦ based
        | v ∷ hash ↦
            if not (length hash == 20)
            then based
            else if v == 0
            then or_fail (lib.new_pub_key_hash (take 20 hash) params)
            else if v == 8
            then or_fail (lib.new_script_hash (take 20 hash) params)
            else err Failure.unknown_address_type
      ]
