-- ===== src/Wire/Decoder/Loop.antt =====
-- Rounds of the loop of Unmarshal on encoded fields.
use veranatest.Wire.Fields.{bytes_field, uint_field}
use veranatest.Wire.Decoder.Parts.{guard_ok, read_number, read_string_lem, read_tag}
use veranatest.Prelude.{
  Bytes, [], ap, append-nil, append_assoc, ap₂, arith, bind_ok, continue, end_of_group, false,
  guard, illegal_tag, length, length-append, ltb, malformed, not, ok, pure, refl, subst, suc, sym,
  true, wrong_wire_type, zero, ℕ, ◌%◌, ◌++◌, ◌+◌, ◌/◌, ◌<◌, ◌==◌, ◌>>=◌, ◌^◌, ◌∙◌, ◌∷◌, ◌≡◌,
}
use veranatest.Wire.Decoder.{
  expect_wire_type, is_illegal, next_field, position, read_string, read_uint64, set_field,
  unmarshal_from,
}
use veranatest.Registry.Types.{Validator}
use veranatest.Wire.{varint}

-- A string field of a tag: how its key is read, and which part of the record it sets.
pub record StringField (tag : ℕ) (m : Validator) (put : Bytes → Validator) : Type 0 where
  pub small : tag < 128
  pub wire_type : tag % 8 ≡ 2
  pub legal : is_illegal ((tag / 8) % 2 ^ 32) ≡ false
  pub empty : put [] ≡ m
  pub selects :
      (bytes : Bytes) (pre_index : ℕ)
      → set_field bytes m pre_index ((tag / 8) % 2 ^ 32) 2
        ≡ (do v ← read_string bytes 2; pure (put v))

module _ {tag : ℕ} {m : Validator} {put : Bytes → Validator} (k : StringField tag m put) where
  set_string :
      (pre_index : ℕ) (front field back : Bytes)
      → length (front ++ (varint 10 (length field) ++ (field ++ back))) < 2 ^ 63
      → set_field
          (front ++ (varint 10 (length field) ++ (field ++ back)))
          m
          pre_index
          ((tag / 8) % 2 ^ 32)
          (tag % 8)
          (length front)
        ≡ (ok (put field), length front + length (varint 10 (length field)) + length field)
  unfolding pure
  set_string pre_index front field back short =
      let whole = front ++ (varint 10 (length field) ++ (field ++ back)) in
      ap (λ w. set_field whole m pre_index ((tag / 8) % 2 ^ 32) w (length front)) k.wire_type
      ∙ (ap (λ c. c (length front)) (k.selects whole pre_index)
          ∙ bind_ok (read_string whole 2) _ _ _ field _ (read_string_lem front field back short)
              refl)

  next_string :
      (front field back : Bytes)
      → length (front ++ (tag ∷ (varint 10 (length field) ++ (field ++ back)))) < 2 ^ 63
      → next_field (front ++ (tag ∷ (varint 10 (length field) ++ (field ++ back)))) m (length front)
        ≡ (ok (put field), length front + 1 + length (varint 10 (length field)) + length field)
  unfolding next_field position
  next_string front field back short =
      let rest = varint 10 (length field) ++ (field ++ back) in
      let same = append_assoc front (tag ∷ []) rest in
      let one = length-append front (tag ∷ []) in
      let wire : not (tag % 8 == 4) ≡ true = rw (k.wire_type) refl in
      bind_ok position _ _ (length front) (length front) _ refl (
        bind_ok (read_uint64 (front ++ (tag ∷ rest)) 10 0 0) _ _ (length front + 1) tag _
          (read_tag tag front rest k.small)
          (bind_ok (guard (not (tag % 8 == 4)) _) _ _ (length front + 1) tt _ (guard_ok _ _ _ wire)
            (bind_ok (guard (not (is_illegal ((tag / 8) % 2 ^ 32))) _) _ _ (length front + 1) tt _
              (guard_ok _ _ _ (ap not k.legal))
              (sym (
                  ap₂ (λ whole i. set_field whole m (length front) ((tag / 8) % 2 ^ 32) (tag % 8) i)
                    same one)
                ∙ (set_string (length front) (front ++ (tag ∷ [])) field back
                      (subst (λ whole. length whole < 2 ^ 63) (sym same) short)
                    ∙ ap
                        (λ i.
                          (ok (put field), i + length (varint 10 (length field)) + length field))
                        one)))))

-- From the bytes `rest` on, the loop makes the record `read` of `m`.
pub record Reads (m : Validator) (rest : Bytes) (read : Validator) : Type 0 where
  pub at :
      (fuel : ℕ) (front : Bytes)
      → length rest < fuel
      → length (front ++ rest) < 2 ^ 63
      → (unmarshal_from fuel (front ++ rest) m (length front)).0 ≡ ok read

pub Reads-end : (m : Validator) → Reads m [] m
unfolding unmarshal_from
Reads-end m = record { at = go }
  where
    go :
        (fuel : ℕ) (front : Bytes)
        → 0 < fuel
        → length (front ++ []) < 2 ^ 63
        → (unmarshal_from fuel (front ++ []) m (length front)).0 ≡ ok m
    go zero front enough short = absurd (omega arith)
    go (suc fuel) front enough short =
        let more : ltb (length front) (length front) ≡ false = ground arith in
        rw (append-nil front, more) refl

-- A field that one round reads, before bytes that the loop reads.
pub Reads-field :
    (m next read : Validator) (field back : Bytes)
    → ((front : Bytes)
        → length (front ++ (field ++ back)) < 2 ^ 63
        → next_field (front ++ (field ++ back)) m (length front)
          ≡ (ok next, length front + length field))
    → 0 < length field
    → Reads next back read
    → Reads m (field ++ back) read
unfolding unmarshal_from ◌>>=◌
Reads-field m next read field back step positive later = record { at = go }
  where
    go :
        (fuel : ℕ) (front : Bytes)
        → length (field ++ back) < fuel
        → length (front ++ (field ++ back)) < 2 ^ 63
        → (unmarshal_from fuel (front ++ (field ++ back)) m (length front)).0 ≡ ok read
    go zero front enough short = absurd (omega arith)
    go (suc fuel) front enough short =
        let outer = length-append front (field ++ back) in
        let inner = length-append field back in
        let same = append_assoc front field back in
        let more : ltb (length front) (length (front ++ (field ++ back))) ≡ true =
          ground (arith, outer, inner) in
        rw (more, step front short, continue)
          (sym (
              ap₂ (λ whole i. (unmarshal_from fuel whole next i).0) same
                (length-append front field))
            ∙ later.at fuel (front ++ field) (omega (arith, inner))
                (subst (λ whole. length whole < 2 ^ 63) (sym same) short))

pub Reads-string :
    {tag : ℕ} {m : Validator} {put : Bytes → Validator} (k : StringField tag m put)
    (read : Validator) (field back : Bytes)
    → Reads (put field) back read
    → Reads m (bytes_field tag field ++ back) read
unfolding bytes_field
Reads-string k read [] back later = subst (λ n. Reads n back read) k.empty later
Reads-string {tag} {m} {put} k read (x ∷ field) back later =
    let number = varint 10 (length (x ∷ field)) in
    let same : tag ∷ ((number ++ (x ∷ field)) ++ back) ≡ tag ∷ (number ++ ((x ∷ field) ++ back)) =
      ap (λ rest. tag ∷ rest) (append_assoc number (x ∷ field) back) in
    Reads-field m (put (x ∷ field)) read (tag ∷ (number ++ (x ∷ field))) back
      (λ front short.
        ap (λ rest. next_field (front ++ rest) m (length front)) same
        ∙ (next_string k front (x ∷ field) back
              (subst (λ rest. length (front ++ rest) < 2 ^ 63) same short)
            ∙ ap (λ i. (ok (put (x ∷ field)), i))
                (omega (arith, length-append number (x ∷ field)))))
      (omega arith) later

next_uint :
    (m : Validator) (v : ℕ) (front back : Bytes)
    → v < 2 ^ 64
    → next_field (front ++ (48 ∷ (varint 10 v ++ back))) m (length front)
      ≡ (ok (record m { term_end = v }), length front + 1 + length (varint 10 v))
unfolding next_field position set_field expect_wire_type guard pure is_illegal
next_uint m v front back small =
    let rest = varint 10 v ++ back in
    let same = append_assoc front (48 ∷ []) rest in
    let one = length-append front (48 ∷ []) in
    bind_ok position _ _ (length front) (length front) _ refl (
      bind_ok (read_uint64 (front ++ (48 ∷ rest)) 10 0 0) _ _ (length front + 1) 48 _
        (read_tag 48 front rest (omega arith))
        (bind_ok (guard true (malformed end_of_group)) _ _ (length front + 1) tt _ refl (
          bind_ok (guard true (malformed illegal_tag)) _ _ (length front + 1) tt _ refl (
            bind_ok (guard true (malformed wrong_wire_type)) _ _ (length front + 1) tt _ refl (
              bind_ok (read_uint64 (front ++ (48 ∷ rest)) 10 0 0) _ _
                (length front + 1 + length (varint 10 v)) v _
                (sym (ap₂ (λ whole i. read_uint64 whole 10 0 0 i) same one)
                  ∙ (read_number v (front ++ (48 ∷ [])) back small
                      ∙ ap (λ i. (ok v, i + length (varint 10 v))) one))
                refl)))))

pub Reads-uint :
    (m read : Validator) (v : ℕ) (back : Bytes)
    → v < 2 ^ 64
    → m.term_end ≡ 0
    → Reads (record m { term_end = v }) back read
    → Reads m (uint_field 48 v ++ back) read
unfolding uint_field
Reads-uint m read zero back small none_yet later =
    subst (λ n. Reads (record m { term_end = n }) back read) (sym none_yet) later
Reads-uint m read (suc v) back small none_yet later =
    Reads-field m (record m { term_end = suc v }) read (48 ∷ varint 10 (suc v)) back
      (λ front short.
        next_uint m (suc v) front back small
        ∙ ap (λ i. (ok (record m { term_end = suc v }), i)) (omega arith))
      (omega arith) later
