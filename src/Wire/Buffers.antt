-- ===== src/Wire/Buffers.antt =====
-- Writing a variable-length integer into a buffer: encodeVarintValidator, and reading it back.
use veranatest.Wire.Varints.{length-varint, length_last, read-varint, varint_more}
use veranatest.Wire.{encode_varint, fill, read_varint, set_at, sov, varint}
use veranatest.Prelude.{
  Bool-cases, Bytes, [], ap, append_assoc, ap₂, arith, false, inl, inr, length, length-append, ltb,
  ok, refl, suc, sym, true, zero, ℕ, ◌%◌, ◌++◌, ◌+◌, ◌-◌, ◌/◌, ◌<◌, ◌^◌, ◌∙◌, ◌∷◌, ◌≡◌, ◌≤◌,
}

set_at_lem :
    (front : Bytes) (x b : ℕ) (back : Bytes)
    → set_at (front ++ (x ∷ back)) (length front) b ≡ ok (front ++ (b ∷ back))
unfolding set_at
set_at_lem [] x b back = refl
set_at_lem (y ∷ front) x b back = rw (set_at_lem front x b back, set_at) refl

write_small :
    (left v : ℕ) (front : Bytes) (x : ℕ) (back : Bytes)
    → ltb v 128 ≡ true
    → fill (suc left) (front ++ (x ∷ back)) (length front) v
      ≡ ok (front ++ (varint (suc left) v ++ back))
unfolding fill varint
write_small left v front x back small = rw (small) (set_at_lem front x v back)

fill_last :
    (left v : ℕ) (front gap back : Bytes)
    → ltb v 128 ≡ true
    → length gap ≡ length (varint (suc left) v)
    → fill (suc left) (front ++ (gap ++ back)) (length front) v
      ≡ ok (front ++ (varint (suc left) v ++ back))
fill_last left v front gap back small h = go gap (h ∙ length_last left v small)
  where
    go :
        (gap : Bytes)
        → length gap ≡ 1
        → fill (suc left) (front ++ (gap ++ back)) (length front) v
          ≡ ok (front ++ (varint (suc left) v ++ back))
    go [] e = absurd (omega arith)
    go (x ∷ []) e = write_small left v front x back small
    go (x ∷ y ∷ gap) e = absurd (omega arith)

fill_more :
    (left v : ℕ) (front : Bytes) (x : ℕ) (back : Bytes)
    → ltb v 128 ≡ false
    → fill (suc left) (front ++ (x ∷ back)) (length front) v
      ≡ fill left (front ++ ((v % 128 + 128) ∷ back)) (length front + 1) (v / 128)
unfolding fill
fill_more left v front x back large = rw (large) (rw (set_at_lem front x (v % 128 + 128) back) refl)

fill_next :
    (n v : ℕ) (front : Bytes) (x : ℕ) (gap back : Bytes)
    → ltb v 128 ≡ false
    → fill
        (suc n)
        ((front ++ ((v % 128 + 128) ∷ [])) ++ (gap ++ back))
        (length (front ++ ((v % 128 + 128) ∷ [])))
        (v / 128)
      ≡ ok ((front ++ ((v % 128 + 128) ∷ [])) ++ (varint (suc n) (v / 128) ++ back))
    → fill (suc (suc n)) (front ++ ((x ∷ gap) ++ back)) (length front) v
      ≡ ok (front ++ (varint (suc (suc n)) v ++ back))
fill_next n v front x gap back large later =
    let byte = v % 128 + 128 in
    fill_more (suc n) v front x (gap ++ back) large
    ∙ (ap₂ (λ buffer offset. fill (suc n) buffer offset (v / 128))
          (sym (append_assoc front (byte ∷ []) (gap ++ back)))
          (sym (length-append front (byte ∷ [])))
        ∙ (later
            ∙ ap ok (
                append_assoc front (byte ∷ []) (varint (suc n) (v / 128) ++ back)
                ∙ ap (λ bytes. front ++ (bytes ++ back)) (sym (varint_more (suc n) v large)))))

-- A gap as long as the encoding is filled with it, and the rest of the buffer stays.
pub fill_lem :
    (left v : ℕ) (front gap back : Bytes)
    → v < 128 ^ suc left
    → length gap ≡ length (varint (suc left) v)
    → fill (suc left) (front ++ (gap ++ back)) (length front) v
      ≡ ok (front ++ (varint (suc left) v ++ back))
fill_lem zero v front gap back b h = fill_last zero v front gap back (ground arith) h
fill_lem (suc n) v front [] back b h = elim (Bool-cases (ltb v 128)) [
  | inl small ↦ fill_last (suc n) v front [] back small h
  | inr large ↦ let e = h ∙ ap length (varint_more (suc n) v large) in absurd (omega (arith, e))
]
fill_lem (suc n) v front (x ∷ gap) back b h = elim (Bool-cases (ltb v 128)) [
  | inl small ↦ fill_last (suc n) v front (x ∷ gap) back small h
  | inr large ↦
      let e = h ∙ ap length (varint_more (suc n) v large) in
      fill_next n v front x gap back large (
        fill_lem n (v / 128) (front ++ ((v % 128 + 128) ∷ [])) gap back (omega arith)
          (omega (arith, e)))
]

not_less : (a b : ℕ) → b ≤ a → ltb a b ≡ false
not_less a b h = ground arith

-- `encodeVarintValidator` writes the encoding of a uint64 into the bytes before the offset, as many
-- as `sovValidator` says, leaves the other bytes, and returns where the encoding starts; reading
-- from there gives the number and the bytes after it.
pub encode_varint_lem :
    (v : ℕ) (front gap back : Bytes)
    → v < 2 ^ 64
    → length gap ≡ sov v
    → (encode_varint (front ++ (gap ++ back)) (length front + length gap) v
        ≡ ok (front ++ (varint 10 v ++ back), length front))
      × (read_varint 10 0 0 (varint 10 v ++ back) ≡ ok (v, back))
unfolding encode_varint
encode_varint_lem v front gap back b h =
    let start : length front + length gap - sov v ≡ length front = omega arith in
    let enough : ltb (length front + length gap) (sov v) ≡ false = not_less _ _ (omega arith) in
    let fits : v < 128 ^ 10 = omega arith in
    (
      rw (enough, start, fill_lem 9 v front gap back fits (h ∙ sym (length-varint v b)))
          (ap (λ offset. ok (front ++ (varint 10 v ++ back), offset)) start),
      read-varint 9 0 0 v back fits (omega arith) ∙ ap (λ n. ok (n, back)) (omega arith),
    )
