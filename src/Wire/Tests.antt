-- ===== src/Wire/Tests.antt =====
-- The encoding of 300 in the middle of a buffer, and the theorem there.
use veranatest.Registry.Types.{Validator}
use veranatest.Wire.Records.{
  copy_at, filled_part, first_bytes, marshal_to_sized_buffer, marshal_validator, put_byte,
  put_bytes, put_field, put_uint, put_varint, size_bytes, size_uint, size_validator, zeros,
}
use veranatest.Wire.{encode_varint, fill, len64, or_one, set_at, sov, varint}
use veranatest.Wire.Marshal.{IsSized, encoding, marshal_validator_lem}
use veranatest.Prelude.{[], arith, ascii, length, ok, pure, refl, ◌>>=◌, ◌∷◌, ◌≡◌}

varint_300 : varint 10 300 ≡ 172 ∷ 2 ∷ []
unfolding varint
varint_300 = refl

sov_300 : 2 ≡ sov 300
unfolding sov len64 or_one
sov_300 = refl

abbrev sample : Validator
sample = record {
  index = ascii "v1";
  member_id = ascii "m";
  operator_address = ascii "op";
  consensus_pubkey = [];
  status = ascii "on";
  term_end = 300;
}

run_marshal :
    marshal_validator sample
    ≡ ok (
        10 ∷ 2 ∷ 118 ∷ 49 ∷ 18 ∷ 1 ∷ 109 ∷ 26 ∷ 2 ∷ 111 ∷ 112 ∷ 42 ∷ 2 ∷ 111 ∷ 110 ∷ 48 ∷ 172 ∷ 2
        ∷ [])
unfolding marshal_validator filled_part size_validator marshal_to_sized_buffer zeros first_bytes
    put_uint put_field put_bytes put_varint put_byte copy_at set_at encode_varint fill sov len64
    or_one size_bytes size_uint pure ◌>>=◌
run_marshal = refl

abbrev record_one : Validator
record_one = record {
  index = ascii "v1";
  member_id = ascii "m";
  operator_address = ascii "op1";
  consensus_pubkey = [];
  status = ascii "active";
  term_end = 300;
}

record_one-IsSized : IsSized record_one
record_one-IsSized = record {
  index = omega arith;
  member_id = omega arith;
  operator_address = omega arith;
  consensus_pubkey = omega arith;
  status = omega arith;
  term_end = omega arith;
}

marshal_validator_lem_example :
    (marshal_validator record_one ≡ ok (encoding record_one))
    × (length (encoding record_one) ≡ size_validator record_one)
marshal_validator_lem_example = marshal_validator_lem record_one record_one-IsSized
