-- ===== src/Wire/Decoder/Runs.antt =====
-- Runs of Unmarshal and of skipValidator, and the theorems at concrete bytes.
use veranatest.Prelude.{
  All, Bytes, Error, List, [], arith, ascii, end_of_group, err, guard, length, lift, malformed,
  negative_length, ok, pure, raise, refl, ℕ, ◌++◌, ◌+◌, ◌<◌, ◌>>=◌, ◌^◌, ◌∷◌, ◌≡◌, ◌⊎◌,
}
use veranatest.Wire.{len64, or_one, sov, varint}
use veranatest.Wire.Decoder.Unknown.{IsUnknown, unknown_fields}
use veranatest.Wire.Decoder.{
  add_int, advance, drop_bytes, expect_wire_type, index_byte, is_illegal, is_negative, next_field,
  position, read_byte, read_string, read_uint64, set_field, skip_field, skip_from, skip_validator,
  skip_value, slice_bytes, unmarshal_from, unmarshal_validator,
}
use veranatest.Wire.Decoder.RoundTrip.{blank, unmarshal-marshal}
use veranatest.Wire.Decoder.Unmarshal.{unmarshal_total}
use veranatest.Wire.Marshal.{IsSized}
use veranatest.Wire.Records.{first_bytes, marshal_validator, size_bytes, size_uint, size_validator}
use veranatest.Registry.Types.{Validator}

module _ where
  -- A record, a field 7 that the type does not have, and the record's term.
  run_unknown :
      unmarshal_validator blank (10 ∷ 2 ∷ 118 ∷ 49 ∷ 58 ∷ 3 ∷ 1 ∷ 2 ∷ 3 ∷ 48 ∷ 172 ∷ 2 ∷ [])
      ≡ ok (record blank { index = ascii "v1"; term_end = 300 })
  unfolding unmarshal_validator unmarshal_from next_field set_field skip_field skip_validator
      skip_from skip_value read_string expect_wire_type advance position read_uint64 read_byte
      is_illegal add_int is_negative slice_bytes drop_bytes index_byte first_bytes ◌>>=◌ pure guard
      lift raise
  run_unknown = refl

  run_group_end : unmarshal_validator blank (12 ∷ []) ≡ err (malformed end_of_group)
  unfolding unmarshal_validator unmarshal_from next_field position read_uint64 read_byte index_byte
      ◌>>=◌ pure guard
  run_group_end = refl

  -- A length that is negative as an int.
  run_negative_length :
      unmarshal_validator blank (10 ∷ 255 ∷ 255 ∷ 255 ∷ 255 ∷ 255 ∷ 255 ∷ 255 ∷ 255 ∷ 255 ∷ 1 ∷ [])
      ≡ err (malformed negative_length)
  unfolding unmarshal_validator unmarshal_from next_field set_field read_string expect_wire_type
      position read_uint64 read_byte is_illegal is_negative index_byte ◌>>=◌ pure guard
  run_negative_length = refl

  -- A group in a group is skipped with what it holds.
  run_groups : skip_validator (59 ∷ 67 ∷ 8 ∷ 1 ∷ 68 ∷ 60 ∷ 10 ∷ []) ≡ ok 6
  unfolding skip_validator skip_from skip_value position read_uint64 read_byte is_negative
      index_byte ◌>>=◌ pure guard
  run_groups = refl

abbrev truncated : Bytes
truncated = 10 ∷ 9 ∷ 118 ∷ []

unmarshal_total_example :
    ((read : Validator) × (unmarshal_validator blank truncated ≡ ok read))
    ⊎ ((e : Error) × (unmarshal_validator blank truncated ≡ err e))
unmarshal_total_example = unmarshal_total blank truncated (omega arith)

abbrev record_two : Validator
record_two = record {
  index = ascii "v2";
  member_id = ascii "m";
  operator_address = ascii "op2";
  consensus_pubkey = [];
  status = ascii "active";
  term_end = 300;
}

record_two-IsSized : IsSized record_two
record_two-IsSized = record {
  index = omega arith;
  member_id = omega arith;
  operator_address = omega arith;
  consensus_pubkey = omega arith;
  status = omega arith;
  term_end = omega arith;
}

-- A field 7 and a field 15 that a later version may have.
abbrev later_fields : List (ℕ × Bytes)
later_fields = (58, ascii "new") ∷ (122, []) ∷ []

later_fields-IsUnknown : All (λ (f : ℕ × Bytes). IsUnknown f.0) later_fields
later_fields-IsUnknown = (
  record { least = omega arith; most = omega arith; wire_type = refl },
  (record { least = omega arith; most = omega arith; wire_type = refl }, tt),
)

record_two_short : size_validator record_two + length (unknown_fields later_fields) < 2 ^ 63
unfolding size_validator size_bytes size_uint sov len64 or_one varint
record_two_short = omega arith

unmarshal-marshal_example :
    (bytes : Bytes) × (marshal_validator record_two ≡ ok bytes)
    × (unmarshal_validator blank (bytes ++ unknown_fields later_fields) ≡ ok record_two)
unmarshal-marshal_example =
    unmarshal-marshal record_two later_fields record_two-IsSized later_fields-IsUnknown
      record_two_short
