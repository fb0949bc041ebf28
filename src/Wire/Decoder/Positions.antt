-- ===== src/Wire/Decoder/Positions.antt =====
-- Reading at an index of a slice is reading the bytes from there on.
use veranatest.Wire.Decoder.Reading.{slice_bytes_lem}
use veranatest.Prelude.{
  Bool-cases, Bytes, [], ap, append_assoc, ap₂, arith, continue, false, inl, inr, leb, length,
  length-append, ltb, ok, ok_injective, pure, refl, suc, sym, true, zero, ℕ, ◌%◌, ◌*◌, ◌++◌, ◌+◌,
  ◌-◌, ◌>>=◌, ◌^◌, ◌∙◌, ◌∷◌, ◌≡◌,
}
use veranatest.Wire.Decoder.{drop_bytes, index_byte, read_byte, read_uint64, slice_bytes}
use veranatest.Wire.Records.{first_bytes}
use veranatest.Wire.{read_varint}

index_byte-append :
    (front : Bytes) (b : ℕ) (back : Bytes) → index_byte (front ++ (b ∷ back)) (length front) ≡ ok b
unfolding index_byte
index_byte-append [] b back = refl
index_byte-append (x ∷ front) b back = index_byte-append front b back

drop_bytes-append : (front back : Bytes) → drop_bytes (length front) (front ++ back) ≡ back
unfolding drop_bytes
drop_bytes-append [] back = refl
drop_bytes-append (x ∷ front) back = drop_bytes-append front back

first_bytes-append : (field back : Bytes) → first_bytes (length field) (field ++ back) ≡ field
unfolding first_bytes
first_bytes-append [] back = refl
first_bytes-append (x ∷ field) back = ap (λ rest. x ∷ rest) (first_bytes-append field back)

-- The bytes between two positions of a slice.
pub slice_bytes-append :
    (front field back : Bytes)
    → slice_bytes (front ++ (field ++ back)) (length front) (length front + length field) ≡ ok field
slice_bytes-append front field back =
    let whole = length-append front (field ++ back) in
    let rest = length-append field back in
    let size : length front + length field - length front ≡ length field = omega arith in
    slice_bytes_lem _ (length front) (length front + length field) (omega arith)
      (omega (arith, whole, rest))
    ∙ ap ok (rw (size, drop_bytes-append front (field ++ back)) (first_bytes-append field back))

read_byte-append :
    (front : Bytes) (b : ℕ) (back : Bytes)
    → read_byte (front ++ (b ∷ back)) (length front) ≡ (ok b, length front + 1)
unfolding read_byte
read_byte-append front b back =
    let whole = length-append front (b ∷ back) in
    let inside : leb (length (front ++ (b ∷ back))) (length front) ≡ false =
      ground (arith, whole) in
    rw (inside, index_byte-append front b back) refl

read_step :
    (left shift acc b : ℕ) (front back : Bytes)
    → ltb b 128 ≡ false
    → read_uint64 (front ++ (b ∷ back)) (suc left) shift acc (length front)
      ≡ read_uint64
          (front ++ (b ∷ back))
          left
          (shift + 7)
          (acc + (b % 128 * 2 ^ shift) % 2 ^ 64)
          (length front + 1)
unfolding read_uint64 ◌>>=◌
read_step left shift acc b front back large =
    rw (read_byte-append front b back, continue, large) refl

pub read_stop :
    (left shift acc b : ℕ) (front back : Bytes)
    → ltb b 128 ≡ true
    → read_uint64 (front ++ (b ∷ back)) (suc left) shift acc (length front)
      ≡ (ok (acc + (b % 128 * 2 ^ shift) % 2 ^ 64), length front + 1)
unfolding read_uint64 ◌>>=◌ pure
read_stop left shift acc b front back small =
    rw (read_byte-append front b back, continue, small) refl

-- The loop at an index reads a number that the loop on the bytes from there on reads, and stands
-- where the bytes after it begin.
pub read_uint64_lem :
    (left shift acc : ℕ) (front bytes : Bytes) (n : ℕ) (rest : Bytes)
    → read_varint left shift acc bytes ≡ ok (n, rest)
    → read_uint64 (front ++ bytes) left shift acc (length front)
      ≡ (ok n, length (front ++ bytes) - length rest)
unfolding read_varint
read_uint64_lem zero shift acc front bytes n rest h = cc
read_uint64_lem (suc left) shift acc front [] n rest h = cc
read_uint64_lem (suc left) shift acc front (b ∷ bytes) n rest h = elim (Bool-cases (ltb b 128)) [
  | inl small ↦
      let found = ok_injective (rw (small) at h) in
      let whole = length-append front (b ∷ bytes) in
      let here : length front + 1 ≡ length (front ++ (b ∷ bytes)) - length bytes =
        omega (arith, whole) in
      read_stop left shift acc b front bytes small
      ∙ (ap (λ i. (ok (acc + (b % 128 * 2 ^ shift) % 2 ^ 64), i)) here
          ∙ ap (λ (p : ℕ × Bytes). (ok p.0, length (front ++ (b ∷ bytes)) - length p.1)) found)
  | inr large ↦
      let sum = acc + (b % 128 * 2 ^ shift) % 2 ^ 64 in
      let same = append_assoc front (b ∷ []) bytes in
      read_step left shift acc b front bytes large
      ∙ (ap₂ (λ whole i. read_uint64 whole left (shift + 7) sum i) (sym same)
            (sym (length-append front (b ∷ [])))
          ∙ (read_uint64_lem left (shift + 7) sum (front ++ (b ∷ [])) bytes n rest (rw (large) at h)
              ∙ ap (λ whole. (ok n, length whole - length rest)) same))
]
