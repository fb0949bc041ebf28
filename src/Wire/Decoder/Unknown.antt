-- ===== src/Wire/Decoder/Unknown.antt =====
-- A field that the type does not have, with bytes as its value, is skipped.
use veranatest.Registry.Types.{Validator}
use veranatest.Wire.Decoder.Loop.{Reads, Reads-end, Reads-field}
use veranatest.Wire.Decoder.Positions.{slice_bytes-append}
use veranatest.Wire.Decoder.Reading.{add_int_lem}
use veranatest.Prelude.{
  All, Bytes, Error, List, Outcome, [], ap, append-nil, append_assoc, ap₂, arith, bind_ok, continue,
  end_of_group, false, guard, illegal_tag, leb, length, length-append, lift, malformed,
  negative_length, not, ok, pure, refl, subst, suc, sym, true, ℕ, ◌%◌, ◌++◌, ◌+◌, ◌/◌, ◌<◌, ◌==◌,
  ◌>>=◌, ◌>>◌, ◌^◌, ◌||◌, ◌∙◌, ◌∷◌, ◌≡◌, ◌≤◌,
}
use veranatest.Wire.Decoder.Parts.{guard_ok, is_positive, read_number, read_tag}
use veranatest.Wire.Decoder.{
  add_int, advance, is_illegal, is_negative, next_field, position, read_uint64, set_field,
  skip_field, skip_from, skip_validator, skip_value, slice_bytes,
}
use veranatest.Wire.{varint}

-- A key of one byte for a field from 7 on, whose value has a length.
pub record IsUnknown (tag : ℕ) : Type 0 where
  pub least : 56 ≤ tag
  pub most : tag < 128
  pub wire_type : tag % 8 ≡ 2

-- The bytes of such a field.
abbrev pub unknown_field : ℕ → Bytes → Bytes
unknown_field tag value = tag ∷ (varint 10 (length value) ++ value)

module _ (tag : ℕ) (u : IsUnknown tag) (value back : Bytes) where
  abbrev rest : Bytes
  rest = tag ∷ (varint 10 (length value) ++ (value ++ back))

  abbrev size : ℕ
  size = 1 + length (varint 10 (length value)) + length value

  abbrev ShortRest : Type 0
  ShortRest = length rest < 2 ^ 63

  size_bound : size ≤ length rest
  size_bound =
      omega
        (arith, length-append (varint 10 (length value)) (value ++ back), length-append value back)

  skip_size : ShortRest → skip_value rest 0 2 1 ≡ (ok 0, size)
  unfolding skip_value advance ◌>>=◌ pure guard
  skip_size short =
      let n = length value in
      let number = read_number n (tag ∷ []) (value ++ back) (omega (arith, size_bound)) in
      let positive = is_positive n (omega (arith, size_bound)) in
      let sum =
        add_int_lem rest short (1 + length (varint 10 n)) n (omega (arith, size_bound))
          (omega (arith, size_bound)) in
      rw (number, continue, positive, sum) refl

  skip_round : (fuel : ℕ) → ShortRest → skip_from (suc fuel) rest 0 0 ≡ (ok size, size)
  unfolding skip_from position pure
  skip_round fuel short =
      let more : leb (length rest) 0 ≡ false = ground arith in
      rw (more) (
        bind_ok (read_uint64 rest 10 0 0) _ 0 1 tag _
          (read_tag tag [] (varint 10 (length value) ++ (value ++ back)) u.most)
          (bind_ok (skip_value rest 0 (tag % 8)) _ 1 size 0 _
            (ap (λ w. skip_value rest 0 w 1) u.wire_type ∙ skip_size short)
            (bind_ok position _ size size size _ refl (
              bind_ok (guard (not (is_negative size)) (malformed negative_length)) _ size size tt _
                (guard_ok _ _ _ (is_positive size (omega (arith, size_bound)))) refl))))

  skip_lem : ShortRest → skip_validator rest ≡ ok size
  unfolding skip_validator
  skip_lem short = ap (λ (r : Outcome ℕ × ℕ). r.0) (skip_round (length rest) short)

  rest_slice :
      (front : Bytes)
      → slice_bytes (front ++ rest) (length front) (length (front ++ rest)) ≡ ok rest
  rest_slice front =
      sym (
        ap₂ (λ whole to. slice_bytes whole (length front) to)
          (ap (λ bytes. front ++ bytes) (append-nil rest)) (sym (length-append front rest)))
      ∙ slice_bytes-append front rest []

  not_negative : (a b : ℕ) → a < 2 ^ 63 → b < 2 ^ 63 → not (is_negative a || is_negative b) ≡ true
  unfolding is_negative
  not_negative a b h g = ground arith

  skip_field_lem :
      (front : Bytes) (i : ℕ)
      → length (front ++ rest) < 2 ^ 63
      → skip_field (front ++ rest) (length front) i ≡ (ok tt, length front + size)
  unfolding skip_field lift
  skip_field_lem front i short =
      let outer = length-append front rest in
      let sum =
        add_int_lem (front ++ rest) short (length front) size (omega (arith, outer))
          (omega (arith, outer, size_bound)) in
      let inside : leb (add_int (length front) size) (length (front ++ rest)) ≡ true =
        rw (sum) (ground (arith, outer, size_bound)) in
      bind_ok (lift (slice_bytes (front ++ rest) (length front) (length (front ++ rest)))) _ i i
        rest _ (ap (λ r. (r, i)) (rest_slice front))
        (bind_ok (lift (skip_validator rest)) _ i i size _
          (ap (λ r. (r, i)) (skip_lem (omega (arith, outer))))
          (bind_ok
            (guard (not (is_negative size || is_negative (add_int (length front) size)))
              (malformed negative_length))
            _ i i tt _
            (guard_ok _ _ _ (
              not_negative size (add_int (length front) size) (omega (arith, outer, size_bound))
                (rw (sum) (omega (arith, outer, size_bound)))))
            (bind_ok
              (guard (leb (add_int (length front) size) (length (front ++ rest)))
                Error.unexpected_eof)
              _ i i tt _ (guard_ok _ _ _ inside) (ap (λ next. (ok tt, next)) sum))))

  selects_skip :
      (m : Validator) (bytes : Bytes) (pre_index i : ℕ)
      → set_field bytes m pre_index ((tag / 8) % 2 ^ 32) (tag % 8) i
        ≡ (do skip_field bytes pre_index; pure m) i
  unfolding set_field
  selects_skip m bytes pre_index i =
      let n = (tag / 8) % 2 ^ 32 in
      let high : 7 ≤ n = omega (arith, u.least, u.most) in
      let not1 : (n == 1) ≡ false = ground (arith, high) in
      let not2 : (n == 2) ≡ false = ground (arith, high) in
      let not3 : (n == 3) ≡ false = ground (arith, high) in
      let not4 : (n == 4) ≡ false = ground (arith, high) in
      let not5 : (n == 5) ≡ false = ground (arith, high) in
      let not6 : (n == 6) ≡ false = ground (arith, high) in
      rw (not1, not2, not3, not4, not5, not6) refl

  next_unknown :
      (m : Validator) (front : Bytes)
      → length (front ++ rest) < 2 ^ 63
      → next_field (front ++ rest) m (length front) ≡ (ok m, length front + size)
  unfolding next_field position is_illegal pure
  next_unknown m front short =
      let n = (tag / 8) % 2 ^ 32 in
      let kind : not (tag % 8 == 4) ≡ true = rw (u.wire_type) refl in
      let legal : not (n == 0 || leb (2 ^ 31) n) ≡ true = ground (arith, u.least, u.most) in
      bind_ok position _ _ (length front) (length front) _ refl (
        bind_ok (read_uint64 (front ++ rest) 10 0 0) _ _ (length front + 1) tag _
          (read_tag tag front (varint 10 (length value) ++ (value ++ back)) u.most)
          (bind_ok (guard (not (tag % 8 == 4)) (malformed end_of_group)) _ _ (length front + 1) tt _
            (guard_ok _ _ _ kind)
            (bind_ok (guard (not (is_illegal n)) (malformed illegal_tag)) _ _ (length front + 1) tt
              _ (guard_ok _ _ _ legal)
              (selects_skip m (front ++ rest) (length front) (length front + 1)
                ∙ bind_ok (skip_field (front ++ rest) (length front)) _ _ (length front + size) tt _
                    (skip_field_lem front (length front + 1) short) refl))))

  -- The loop goes on after the field, with the same record.
  pub Reads-unknown :
      (m read : Validator) → Reads m back read → Reads m (unknown_field tag value ++ back) read
  Reads-unknown m read later =
      let number = varint 10 (length value) in
      let same : unknown_field tag value ++ back ≡ rest =
        ap (λ bytes. tag ∷ bytes) (append_assoc number value back) in
      Reads-field m m read (unknown_field tag value) back
        (λ front short.
          ap (λ bytes. next_field (front ++ bytes) m (length front)) same
          ∙ (next_unknown m front (subst (λ bytes. length (front ++ bytes) < 2 ^ 63) same short)
              ∙ ap (λ i. (ok m, i)) (omega (arith, length-append number value))))
        (omega arith) later

-- Fields that the type does not have, one after the other.
abbrev pub unknown_fields : List (ℕ × Bytes) → Bytes
unknown_fields [] = []
unknown_fields ((tag, value) ∷ rest) = unknown_field tag value ++ unknown_fields rest

pub Reads-unknown_fields :
    (m : Validator) (fields : List (ℕ × Bytes))
    → All (λ (f : ℕ × Bytes). IsUnknown f.0) fields
    → Reads m (unknown_fields fields) m
Reads-unknown_fields m [] h = Reads-end m
Reads-unknown_fields m ((tag, value) ∷ rest) h =
    Reads-unknown tag h.0 value (unknown_fields rest) m m (Reads-unknown_fields m rest h.1)
