-- ===== src/Wire/Decoder/RoundTrip.antt =====
-- Unmarshal gives back the record that Marshal encoded.
use veranatest.Wire.Decoder.Unknown.{IsUnknown, Reads-unknown_fields, unknown_fields}
use veranatest.Wire.Decoder.Loop.{Reads, Reads-string, Reads-uint, StringField}
use veranatest.Wire.Records.{marshal_validator, size_validator}
use veranatest.Wire.Fields.{bytes_field, uint_field}
use veranatest.Wire.Marshal.{IsSized, encoding, marshal_validator_lem}
use veranatest.Prelude.{
  All, Bytes, List, [], append_assoc, arith, length, length-append, ok, refl, subst, suc, sym, ℕ,
  ◌++◌, ◌+◌, ◌<◌, ◌^◌, ◌≡◌,
}
use veranatest.Wire.Decoder.{is_illegal, set_field, unmarshal_validator}
use veranatest.Registry.Types.{Validator}

-- The record before any field is read.
abbrev pub blank : Validator
blank = record {
  index = [];
  member_id = [];
  operator_address = [];
  consensus_pubkey = [];
  status = [];
  term_end = 0;
}

module _ (m : Validator) where
  -- The record after each field.
  abbrev until_index : Validator
  until_index = record blank { index = m.index }

  abbrev until_member_id : Validator
  until_member_id = record until_index { member_id = m.member_id }

  abbrev until_operator_address : Validator
  until_operator_address = record until_member_id { operator_address = m.operator_address }

  abbrev until_consensus_pubkey : Validator
  until_consensus_pubkey = record until_operator_address { consensus_pubkey = m.consensus_pubkey }

  abbrev until_status : Validator
  until_status = record until_consensus_pubkey { status = m.status }

  index_field : StringField 10 blank (λ v. record blank { index = v })
  unfolding is_illegal set_field
  index_field = record {
    small = omega arith;
    wire_type = refl;
    legal = refl;
    empty = refl;
    selects = λ bytes pre. refl;
  }

  member_id_field : StringField 18 until_index (λ v. record until_index { member_id = v })
  unfolding is_illegal set_field
  member_id_field = record {
    small = omega arith;
    wire_type = refl;
    legal = refl;
    empty = refl;
    selects = λ bytes pre. refl;
  }

  operator_address_field :
      StringField 26 until_member_id (λ v. record until_member_id { operator_address = v })
  unfolding is_illegal set_field
  operator_address_field = record {
    small = omega arith;
    wire_type = refl;
    legal = refl;
    empty = refl;
    selects = λ bytes pre. refl;
  }

  consensus_pubkey_field :
      StringField 34 until_operator_address
        (λ v. record until_operator_address { consensus_pubkey = v })
  unfolding is_illegal set_field
  consensus_pubkey_field = record {
    small = omega arith;
    wire_type = refl;
    legal = refl;
    empty = refl;
    selects = λ bytes pre. refl;
  }

  status_field :
      StringField 42 until_consensus_pubkey (λ v. record until_consensus_pubkey { status = v })
  unfolding is_illegal set_field
  status_field = record {
    small = omega arith;
    wire_type = refl;
    legal = refl;
    empty = refl;
    selects = λ bytes pre. refl;
  }

  fields-Reads :
      (back : Bytes)
      → m.term_end < 2 ^ 64
      → Reads m back m
      → Reads blank
          (bytes_field 10 m.index
            ++ (bytes_field 18 m.member_id
                ++ (bytes_field 26 m.operator_address
                    ++ (bytes_field 34 m.consensus_pubkey
                        ++ (bytes_field 42 m.status ++ (uint_field 48 m.term_end ++ back))))))
          m
  fields-Reads back small later = Reads-string index_field m m.index _ (
      Reads-string member_id_field m m.member_id _ (
        Reads-string operator_address_field m m.operator_address _ (
          Reads-string consensus_pubkey_field m m.consensus_pubkey _ (
            Reads-string status_field m m.status _
              (Reads-uint until_status m m.term_end back small refl later)))))

  encoding-append :
      (back : Bytes)
      → encoding m ++ back
        ≡ bytes_field 10 m.index
          ++ (bytes_field 18 m.member_id
              ++ (bytes_field 26 m.operator_address
                  ++ (bytes_field 34 m.consensus_pubkey
                      ++ (bytes_field 42 m.status ++ (uint_field 48 m.term_end ++ back)))))
  unfolding encoding
  encoding-append back = simp append_assoc

-- `Marshal` gives bytes that `Unmarshal` turns into the record again, also where fields follow that
-- the type does not have, each with a key of one byte and with bytes as its value; the lengths of the
-- record's fields are uint64 values, and all bytes together are no more than an int counts.
pub unmarshal-marshal :
    (m : Validator) (fields : List (ℕ × Bytes))
    → IsSized m
    → All (λ (f : ℕ × Bytes). IsUnknown f.0) fields
    → size_validator m + length (unknown_fields fields) < 2 ^ 63
    → (bytes : Bytes) × (marshal_validator m ≡ ok bytes)
      × (unmarshal_validator blank (bytes ++ unknown_fields fields) ≡ ok m)
unfolding unmarshal_validator
unmarshal-marshal m fields z unknown short =
    let more = unknown_fields fields in
    let (written, size) = marshal_validator_lem m z in
    let whole = length-append (encoding m) more in
    let reads =
      subst (λ bytes. Reads blank bytes m) (sym (encoding-append m more))
        (fields-Reads m more z.term_end (Reads-unknown_fields m fields unknown)) in
    (
      encoding m,
      written,
      reads.at (suc (length (encoding m ++ more))) [] (omega arith) (omega (arith, size, whole)),
    )
