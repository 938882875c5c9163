-- ===== src/Sui/Util.antt =====
-- chain/sui/util.go: texts decoded to the bytes of addresses, objects and digests.
use crosschain_enhanced_by_a.Prelude.{
  ℕ, zero, suc, ◌-◌, ◌/◌, ◌%◌, List, [], ◌∷◌, ◌++◌, none, some, Result, ok, err, ◌>>=◌,
  if◌then◌else◌, ◌==◌, ltb, length, take, drop, replicate,
}
use crosschain_enhanced_by_a.Prelude.Text.{Text, codes, has_prefix, replace_first}
use crosschain_enhanced_by_a.Evm.Number.{hex_decode}
use crosschain_enhanced_by_a.Sui.{Coin, Failure}

-- `bcs.ObjectID`, `bcs.SequenceNumber` and `bcs.ObjectDigest`
pub record ObjectRef : Type 0 where
  pub id : List ℕ
  pub version : ℕ
  pub digest : List ℕ

-- `decodeHex`
unfoldable pub decode_hex : Text → Result Failure (List ℕ)
unfolding has_prefix hex_decode
decode_hex s = elim (hex_decode (if has_prefix s (codes "0x") then drop 2 s else s)) [
  | none ↦ err Failure.bad_hex
  | some bytes ↦ ok bytes
]

-- `toObjectID`: the first 32 bytes, all of which have to be there.
unfoldable pub to_object_id : List ℕ → Result Failure (List ℕ)
to_object_id bytes = if ltb (length bytes) 32 then err Failure.bad_object_id else ok (take 32 bytes)

-- `hexToObjectID`
unfoldable pub hex_to_object_id : Text → Result Failure (List ℕ)
unfolding decode_hex to_object_id
hex_to_object_id s = decode_hex s >>= λ bytes. to_object_id bytes

-- `toAddress`: a 33rd byte panics, fewer are followed by zeros.
unfoldable pub to_address : List ℕ → Result Failure (List ℕ)
to_address bytes =
    if ltb 32 (length bytes)
    then err Failure.panic
    else ok (bytes ++ replicate (32 - length bytes) 0)

-- `hexToAddress`
unfoldable pub hex_to_address : Text → Result Failure (List ℕ)
unfolding decode_hex to_address
hex_to_address s = decode_hex s >>= λ bytes. to_address bytes

-- `binary.LittleEndian.PutUint64`, for a number of bytes
unfoldable pub little_endian_bytes : ℕ → ℕ → List ℕ
little_endian_bytes zero n = []
little_endian_bytes (suc size) n = n % 256 ∷ little_endian_bytes size (n / 256)

-- The base58 decoder is an argument.
module _ (base58_decode : Text → List ℕ) where
  -- `base58ToBytes` and `base58ToObjectDigest`
  unfoldable pub base58_to_object_digest : Text → Result Failure (List ℕ)
  base58_to_object_digest s =
      let bytes = base58_decode s in if length bytes == 0 then err Failure.bad_base58 else ok bytes

  -- `coinToObject`
  unfoldable pub coin_to_object : Coin → Result Failure ObjectRef
  unfolding hex_to_object_id base58_to_object_digest
  coin_to_object coin = do
    id ← hex_to_object_id coin.coin_object_id
    digest ← base58_to_object_digest coin.digest
    ok (record { id = id; version = coin.version; digest = digest })

-- `NormalizeCoinContract`
unfoldable pub normalize_coin_contract : Text → Text
unfolding has_prefix replace_first
normalize_coin_contract contract =
    if has_prefix contract (codes "coin::Coin<")
    then replace_first (replace_first contract (codes "coin::Coin<") []) (codes ">") []
    else contract
