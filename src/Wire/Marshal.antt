-- ===== src/Wire/Marshal.antt =====
-- What Marshal of a Validator writes, from the back of the buffer to its front.
use veranatest.Wire.Records.{
  filled_part, first_bytes, marshal_to_sized_buffer, marshal_validator, put_field, put_uint,
  size_bytes, size_validator, zeros,
}
use veranatest.Registry.Types.{Validator}
use veranatest.Prelude.{
  Bytes, [], ap, append-nil, arith, length, length-append, ok, refl, sym, ◌++◌, ◌+◌, ◌-◌, ◌<◌, ◌^◌,
  ◌∙◌, ◌∷◌, ◌≡◌,
}
use veranatest.Wire.Fields.{
  bytes_field, left, length-bytes_field, length-uint_field, put_field_lem, put_uint_lem, then_ok,
  uint_field,
}

-- The encoding of a record, by the numbers of its fields and the kinds of their values.
unfoldable pub encoding : Validator → Bytes
unfolding bytes_field uint_field
encoding m =
    bytes_field 10 m.index
    ++ (bytes_field 18 m.member_id
        ++ (bytes_field 26 m.operator_address
            ++ (bytes_field 34 m.consensus_pubkey
                ++ (bytes_field 42 m.status ++ uint_field 48 m.term_end))))

first_all : (bytes : Bytes) → first_bytes (length bytes) bytes ≡ bytes
unfolding first_bytes
first_all [] = refl
first_all (b ∷ bytes) = ap (λ rest. b ∷ rest) (first_all bytes)

-- The lengths and the number of a record are uint64 values.
pub record IsSized (m : Validator) : Type 0 where
  pub index : length m.index < 2 ^ 64
  pub member_id : length m.member_id < 2 ^ 64
  pub operator_address : length m.operator_address < 2 ^ 64
  pub consensus_pubkey : length m.consensus_pubkey < 2 ^ 64
  pub status : length m.status < 2 ^ 64
  pub term_end : m.term_end < 2 ^ 64

module _ (m : Validator) (z : IsSized m) where
  -- The bytes from each field on.
  abbrev from_status : Bytes
  from_status = bytes_field 42 m.status ++ (uint_field 48 m.term_end ++ [])

  abbrev from_pubkey : Bytes
  from_pubkey = bytes_field 34 m.consensus_pubkey ++ from_status

  abbrev from_operator : Bytes
  from_operator = bytes_field 26 m.operator_address ++ from_pubkey

  abbrev from_member : Bytes
  from_member = bytes_field 18 m.member_id ++ from_operator

  pub encoding_end : bytes_field 10 m.index ++ from_member ≡ encoding m
  unfolding encoding
  encoding_end =
      ap
        (λ last.
          bytes_field 10 m.index
          ++ (bytes_field 18 m.member_id
              ++ (bytes_field 26 m.operator_address
                  ++ (bytes_field 34 m.consensus_pubkey ++ (bytes_field 42 m.status ++ last)))))
        (append-nil (uint_field 48 m.term_end))

  length-encoding : length (encoding m) ≡ size_validator m
  unfolding size_validator
  length-encoding =
      ap length (sym encoding_end)
      ∙ omega (
        arith,
        length-append (bytes_field 10 m.index) from_member,
        length-append (bytes_field 18 m.member_id) from_operator,
        length-append (bytes_field 26 m.operator_address) from_pubkey,
        length-append (bytes_field 34 m.consensus_pubkey) from_status,
        length-append (bytes_field 42 m.status) (uint_field 48 m.term_end ++ []),
        length-append (uint_field 48 m.term_end) [],
        length-bytes_field 10 m.index z.index,
        length-bytes_field 18 m.member_id z.member_id,
        length-bytes_field 26 m.operator_address z.operator_address,
        length-bytes_field 34 m.consensus_pubkey z.consensus_pubkey,
        length-bytes_field 42 m.status z.status,
        length-uint_field 48 m.term_end z.term_end,
      )

  put_index :
      put_field 10 m.index (left (size_bytes m.index) from_member) ≡ (ok tt, left 0 (encoding m))
  put_index =
      let start : size_bytes m.index ≡ 0 + size_bytes m.index = omega arith in
      ap (λ i. put_field 10 m.index (left i from_member)) start
      ∙ (put_field_lem 10 0 m.index from_member z.index ∙ ap (λ b. (ok tt, left 0 b)) encoding_end)

  written : marshal_to_sized_buffer m (left (size_validator m) []) ≡ (ok tt, left 0 (encoding m))
  unfolding marshal_to_sized_buffer size_validator
  written = then_ok (put_uint 48 m.term_end) _ _ _ _ (put_uint_lem 48 _ m.term_end [] z.term_end) (
      then_ok (put_field 42 m.status) _ _ _ _ (put_field_lem 42 _ m.status _ z.status) (
        then_ok (put_field 34 m.consensus_pubkey) _ _ _ _
          (put_field_lem 34 _ m.consensus_pubkey from_status z.consensus_pubkey)
          (then_ok (put_field 26 m.operator_address) _ _ _ _
            (put_field_lem 26 _ m.operator_address from_pubkey z.operator_address)
            (then_ok (put_field 18 m.member_id) _ _ _ _
              (put_field_lem 18 _ m.member_id from_operator z.member_id) put_index))))

  from_zeros :
      marshal_to_sized_buffer m (zeros (size_validator m), size_validator m)
      ≡ (ok tt, (encoding m, 0))
  unfolding zeros
  from_zeros =
      ap (λ buffer. marshal_to_sized_buffer m (buffer, size_validator m))
        (sym (append-nil (zeros (size_validator m))))
      ∙ written

  rest : size_validator m - 0 ≡ length (encoding m)
  rest = omega (arith, length-encoding)

  -- `Marshal` gives the encoding of the record, as long as `Size` says, where the lengths of its
  -- fields are uint64 values: no index leaves the buffer, and no byte of it is left unwritten.
  pub marshal_validator_lem :
      (marshal_validator m ≡ ok (encoding m)) × (length (encoding m) ≡ size_validator m)
  unfolding marshal_validator filled_part
  marshal_validator_lem = (
    ap (filled_part (size_validator m)) from_zeros
        ∙ ap ok (ap (λ n. first_bytes n (encoding m)) rest ∙ first_all (encoding m)),
    length-encoding,
  )
