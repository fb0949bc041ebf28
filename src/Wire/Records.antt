-- ===== src/Wire/Records.antt =====
-- The encoding of a Validator: Size, MarshalToSizedBuffer and Marshal of
-- x/validatorregistry/types/validator.pb.go. The state is the buffer and the index `i`.
use veranatest.Wire.{encode_varint, set_at, sov}
use veranatest.Prelude.{
  Bytes, Exec, Outcome, [], err, if◌then◌else◌, is_empty, length, ltb, ok, panicked, pure, suc,
  zero, ℕ, ◌+◌, ◌-◌, ◌==◌, ◌>>◌, ◌∷◌,
}
use veranatest.Registry.Types.{Validator}

-- `n += 1 + l + sovValidator(uint64(l))`
unfoldable pub size_bytes : Bytes → ℕ
unfolding sov
size_bytes field = if is_empty field then 0 else 1 + length field + sov (length field)

unfoldable pub size_uint : ℕ → ℕ
unfolding sov
size_uint v = if v == 0 then 0 else 1 + sov v

unfoldable pub size_validator : Validator → ℕ
unfolding size_bytes size_uint
size_validator m =
    size_bytes m.index
    + size_bytes m.member_id
    + size_bytes m.operator_address
    + size_bytes m.consensus_pubkey
    + size_bytes m.status
    + size_uint m.term_end

-- `copy(buffer[offset:], bytes)`
unfoldable pub copy_at : Bytes → ℕ → Bytes → Bytes
copy_at [] offset bytes = []
copy_at (x ∷ rest) zero [] = x ∷ rest
copy_at (x ∷ rest) zero (b ∷ bytes) = b ∷ copy_at rest zero bytes
copy_at (x ∷ rest) (suc offset) bytes = x ∷ copy_at rest offset bytes

-- `i--; dAtA[i] = b`
unfoldable pub put_byte : ℕ → Exec (Bytes × ℕ) (Unit {0})
unfolding set_at
put_byte b (buffer, zero) = (panicked, (buffer, zero))
put_byte b (buffer, suc i) = elim (set_at buffer i b) [
  | ok changed ↦ (ok tt, (changed, i))
  | err e ↦ (err e, (buffer, i))
  | panicked ↦ (panicked, (buffer, i))
]

-- `i -= len(bytes); copy(dAtA[i:], bytes)`
unfoldable pub put_bytes : Bytes → Exec (Bytes × ℕ) (Unit {0})
unfolding copy_at
put_bytes bytes (buffer, i) =
    if ltb i (length bytes)
    then (panicked, (buffer, i))
    else (ok tt, (copy_at buffer (i - length bytes) bytes, i - length bytes))

-- `i = encodeVarintValidator(dAtA, i, v)`
unfoldable pub put_varint : ℕ → Exec (Bytes × ℕ) (Unit {0})
unfolding encode_varint
put_varint v (buffer, i) = elim (encode_varint buffer i v) [
  | ok changed ↦ (ok tt, changed)
  | err e ↦ (err e, (buffer, i))
  | panicked ↦ (panicked, (buffer, i))
]

-- One field, with its tag.
unfoldable pub put_field : ℕ → Bytes → Exec (Bytes × ℕ) (Unit {0})
unfolding put_bytes put_varint put_byte
put_field tag bytes =
    if is_empty bytes
    then pure tt
    else (do put_bytes bytes; put_varint (length bytes); put_byte tag)

unfoldable pub put_uint : ℕ → ℕ → Exec (Bytes × ℕ) (Unit {0})
unfolding put_varint put_byte
put_uint tag v = if v == 0 then pure tt else (do put_varint v; put_byte tag)

-- `MarshalToSizedBuffer`: the state is the buffer and its length at first, and the index where the
-- encoding starts at the end.
unfoldable pub marshal_to_sized_buffer : Validator → Exec (Bytes × ℕ) (Unit {0})
unfolding put_uint put_field
marshal_to_sized_buffer m = do
  put_uint 48 m.term_end
  put_field 42 m.status
  put_field 34 m.consensus_pubkey
  put_field 26 m.operator_address
  put_field 18 m.member_id
  put_field 10 m.index

unfoldable pub zeros : ℕ → Bytes
zeros zero = []
zeros (suc n) = 0 ∷ zeros n

-- `dAtA[:n]`
unfoldable pub first_bytes : ℕ → Bytes → Bytes
first_bytes zero bytes = []
first_bytes (suc n) [] = []
first_bytes (suc n) (b ∷ bytes) = b ∷ first_bytes n bytes

-- What `Marshal` returns of the buffer and the index.
unfoldable pub filled_part : ℕ → Outcome (Unit {0}) × (Bytes × ℕ) → Outcome Bytes
unfolding first_bytes
filled_part size (ok u, (buffer, i)) = ok (first_bytes (size - i) buffer)
filled_part size (err e, s) = err e
filled_part size (panicked, s) = panicked

-- `Marshal`
unfoldable pub marshal_validator : Validator → Outcome Bytes
unfolding size_validator marshal_to_sized_buffer zeros filled_part
marshal_validator m =
    filled_part (size_validator m)
      (marshal_to_sized_buffer m (zeros (size_validator m), size_validator m))
