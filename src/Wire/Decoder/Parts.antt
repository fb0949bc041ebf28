-- ===== src/Wire/Decoder/Parts.antt =====
-- Reading the parts of an encoded field: its tag, its number, its bytes.
use veranatest.Wire.Decoder.Reading.{add_int_lem}
use veranatest.Wire.Varints.{read-varint}
use veranatest.Prelude.{
  Bool, Bytes, Error, Exec, ap, append_assoc, ap₂, arith, bind_ok, false, guard, leb, length,
  length-append, lift, malformed, negative_length, not, ok, pure, refl, subst, sym, true, ℕ, ◌%◌,
  ◌*◌, ◌++◌, ◌+◌, ◌-◌, ◌<◌, ◌>>=◌, ◌>>◌, ◌^◌, ◌∙◌, ◌∷◌, ◌≡◌,
}
use veranatest.Wire.Decoder.{
  add_int, advance, expect_wire_type, is_negative, position, read_string, read_uint64, slice_bytes,
}
use veranatest.Wire.Decoder.Positions.{read_stop, read_uint64_lem, slice_bytes-append}
use veranatest.Wire.{varint}

pub read_number :
    (v : ℕ) (front back : Bytes)
    → v < 2 ^ 64
    → read_uint64 (front ++ (varint 10 v ++ back)) 10 0 0 (length front)
      ≡ (ok v, length front + length (varint 10 v))
read_number v front back small =
    let number : v * 2 ^ 0 ≡ v = omega arith in
    let inner = length-append (varint 10 v) back in
    let outer = length-append front (varint 10 v ++ back) in
    let here : length (front ++ (varint 10 v ++ back)) - length back
        ≡ length front + length (varint 10 v) =
      omega (arith, inner, outer) in
    read_uint64_lem 10 0 0 front (varint 10 v ++ back) v back
      (read-varint 9 0 0 v back (omega arith) (omega arith) ∙ ap (λ n. ok (n, back)) (omega arith))
    ∙ ap (λ i. (ok v, i)) here

pub read_tag :
    (tag : ℕ) (front back : Bytes)
    → tag < 128
    → read_uint64 (front ++ (tag ∷ back)) 10 0 0 (length front) ≡ (ok tag, length front + 1)
read_tag tag front back small =
    let number : 0 + (tag % 128 * 2 ^ 0) % 2 ^ 64 ≡ tag = omega arith in
    read_stop 9 0 0 tag front back (ground arith) ∙ ap (λ n. (ok n, length front + 1)) number

-- The rest of `read_string` after the length.
abbrev take_part : Bytes → ℕ → Exec ℕ Bytes
take_part bytes n = do
  start ← position
  let post_index = add_int start n
  guard (not (is_negative post_index)) (malformed negative_length)
  guard (leb post_index (length bytes)) Error.unexpected_eof
  part ← lift (slice_bytes bytes start post_index)
  advance n
  pure part

take_field :
    (front field back : Bytes)
    → length (front ++ (field ++ back)) < 2 ^ 63
    → take_part (front ++ (field ++ back)) (length field) (length front)
      ≡ (ok field, length front + length field)
unfolding position ◌>>=◌ advance pure is_negative guard lift
take_field front field back short =
    let outer = length-append front (field ++ back) in
    let inner = length-append field back in
    let sum =
      add_int_lem _ short (length front) (length field) (omega (arith, outer, inner))
        (omega (arith, outer, inner)) in
    let positive : leb (2 ^ 63) (length front + length field) ≡ false =
      ground (arith, outer, inner) in
    let inside : leb (length front + length field) (length (front ++ (field ++ back))) ≡ true =
      ground (arith, outer, inner) in
    rw (sum, positive, inside, slice_bytes-append front field back) (rw (sum) refl)

pub guard_ok : (test : Bool) (e : Error) (i : ℕ) → test ≡ true → guard test e i ≡ (ok tt, i)
unfolding guard
guard_ok test e i h = rw (h) refl

pub is_positive : (n : ℕ) → n < 2 ^ 63 → not (is_negative n) ≡ true
unfolding is_negative
is_positive n h = ground arith

pub read_string_lem :
    (front field back : Bytes)
    → length (front ++ (varint 10 (length field) ++ (field ++ back))) < 2 ^ 63
    → read_string (front ++ (varint 10 (length field) ++ (field ++ back))) 2 (length front)
      ≡ (ok field, length front + length (varint 10 (length field)) + length field)
unfolding read_string expect_wire_type
read_string_lem front field back short =
    let n = length field in
    let outer = length-append front (varint 10 n ++ (field ++ back)) in
    let middle = length-append (varint 10 n) (field ++ back) in
    let inner = length-append field back in
    let before = length-append front (varint 10 n) in
    let same = append_assoc front (varint 10 n) (field ++ back) in
    let small : n < 2 ^ 63 = omega (arith, outer, middle, inner) in
    let short_too = subst (λ whole. length whole < 2 ^ 63) (sym same) short in
    bind_ok (guard true _) _ _ (length front) tt _ (guard_ok true _ _ refl) (
      bind_ok (read_uint64 (front ++ (varint 10 n ++ (field ++ back))) 10 0 0) _ _
        (length front + length (varint 10 n)) n _
        (read_number n front (field ++ back) (omega arith))
        (bind_ok (guard (not (is_negative n)) _) _ _ (length front + length (varint 10 n)) tt _
          (guard_ok _ _ _ (is_positive n small))
          (sym (ap₂ (λ whole i. take_part whole n i) same before)
            ∙ (take_field (front ++ varint 10 n) field back short_too
                ∙ ap (λ i. (ok field, i + n)) before))))
