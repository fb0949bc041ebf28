-- ===== src/Wire/Fields.antt =====
-- The fields of a record in the buffer: each is written before the bytes that are there.
use veranatest.Wire.Varints.{length-varint}
use veranatest.Wire.Buffers.{encode_varint_lem}
use veranatest.Wire.Records.{
  copy_at, put_byte, put_bytes, put_field, put_uint, put_varint, size_bytes, size_uint, zeros,
}
use veranatest.Wire.{encode_varint, set_at, sov, varint}
use veranatest.Prelude.{
  Bytes, Exec, Outcome, [], ap, append_assoc, ap₂, arith, continue, false, length, length-append,
  ltb, ok, pure, refl, suc, sym, zero, ℕ, ◌++◌, ◌+◌, ◌-◌, ◌<◌, ◌==◌, ◌>>=◌, ◌>>◌, ◌^◌, ◌∙◌, ◌∷◌,
  ◌≡◌,
}

-- The encoding of a field: nothing for an empty one, and else its tag, its length and its bytes.
unfoldable pub bytes_field : ℕ → Bytes → Bytes
bytes_field tag [] = []
bytes_field tag (b ∷ bytes) = tag ∷ (varint 10 (length (b ∷ bytes)) ++ (b ∷ bytes))

unfoldable pub uint_field : ℕ → ℕ → Bytes
uint_field tag zero = []
uint_field tag (suc n) = tag ∷ varint 10 (suc n)

-- The buffer with `n` bytes left to write before those that are there.
abbrev pub left : ℕ → Bytes → Bytes × ℕ
left n back = (zeros n ++ back, n)

length-zeros : (n : ℕ) → length (zeros n) ≡ n
unfolding zeros
length-zeros zero = refl
length-zeros (suc n) = ap suc (length-zeros n)

zeros_add : (j n : ℕ) (back : Bytes) → zeros (j + n) ++ back ≡ zeros j ++ (zeros n ++ back)
unfolding zeros
zeros_add zero n back = let same : 0 + n ≡ n = omega arith in ap (λ k. zeros k ++ back) same
zeros_add (suc j) n back =
    let same : suc j + n ≡ suc (j + n) = omega arith in
    ap (λ k. zeros k ++ back) same ∙ ap (λ bytes. 0 ∷ bytes) (zeros_add j n back)

copy_at_lem :
    (j : ℕ) (bytes back : Bytes)
    → copy_at (zeros j ++ (zeros (length bytes) ++ back)) j bytes ≡ zeros j ++ (bytes ++ back)
unfolding copy_at zeros
copy_at_lem zero [] [] = refl
copy_at_lem zero [] (x ∷ back) = refl
copy_at_lem zero (b ∷ bytes) back = ap (λ rest. b ∷ rest) (copy_at_lem zero bytes back)
copy_at_lem (suc j) bytes back = ap (λ rest. 0 ∷ rest) (copy_at_lem j bytes back)

put_bytes_lem :
    (bytes : Bytes) (j : ℕ) (back : Bytes)
    → put_bytes bytes (left (j + length bytes) back) ≡ (ok tt, left j (bytes ++ back))
unfolding put_bytes
put_bytes_lem bytes j back =
    let fits : ltb (j + length bytes) (length bytes) ≡ false = ground arith in
    let start : j + length bytes - length bytes ≡ j = omega arith in
    rw (fits, start)
      (ap (λ buffer. (ok tt, (buffer, j)))
        (ap (λ buffer. copy_at buffer j bytes) (zeros_add j (length bytes) back)
          ∙ copy_at_lem j bytes back))

put_varint_step :
    (v i : ℕ) (buffer : Bytes) (r : Bytes × ℕ)
    → encode_varint buffer i v ≡ ok r
    → put_varint v (buffer, i) ≡ (ok tt, r)
unfolding put_varint
put_varint_step v i buffer r h = rw (put_varint, h) refl

put_varint_lem :
    (v j : ℕ) (back : Bytes)
    → v < 2 ^ 64
    → put_varint v (left (j + sov v) back) ≡ (ok tt, left j (varint 10 v ++ back))
put_varint_lem v j back b =
    let write = (encode_varint_lem v (zeros j) (zeros (sov v)) back b (length-zeros (sov v))).0 in
    put_varint_step v (j + sov v) (zeros (j + sov v) ++ back) (left j (varint 10 v ++ back)) (
      ap₂ (λ buffer i. encode_varint buffer i v) (zeros_add j (sov v) back)
        (ap₂ (λ x y. x + y) (sym (length-zeros j)) (sym (length-zeros (sov v))))
      ∙ write
      ∙ ap (λ i. ok (zeros j ++ (varint 10 v ++ back), i)) (length-zeros j))

set_at-zeros :
    (b j : ℕ) (back : Bytes) → set_at (zeros (suc j) ++ back) j b ≡ ok (zeros j ++ (b ∷ back))
unfolding set_at zeros
set_at-zeros b zero back = refl
set_at-zeros b (suc j) back = rw (set_at, set_at-zeros b j back) refl

put_byte_lem :
    (b j : ℕ) (back : Bytes) → put_byte b (left (suc j) back) ≡ (ok tt, left j (b ∷ back))
unfolding put_byte
put_byte_lem b j back = rw (put_byte, set_at-zeros b j back) refl

pub then_ok :
    (m k : Exec (Bytes × ℕ) (Unit {0})) (s t : Bytes × ℕ) (r : Outcome (Unit {0}) × (Bytes × ℕ))
    → m s ≡ (ok tt, t)
    → k t ≡ r
    → (m >> k) s ≡ r
unfolding ◌>>=◌
then_ok m k s t r h g = rw (h, continue) g

put_full_field :
    (tag j x : ℕ) (bytes back : Bytes)
    → length (x ∷ bytes) < 2 ^ 64
    → put_field tag (x ∷ bytes) (left (suc j + sov (length (x ∷ bytes)) + length (x ∷ bytes)) back)
      ≡ (ok tt, left j (bytes_field tag (x ∷ bytes) ++ back))
unfolding put_field bytes_field
put_full_field tag j x bytes back b =
    let n = length (x ∷ bytes) in
    then_ok (put_bytes (x ∷ bytes)) (put_varint n >> put_byte tag) _ _ _
      (put_bytes_lem (x ∷ bytes) (suc j + sov n) back)
      (then_ok (put_varint n) (put_byte tag) _ _ _
        (put_varint_lem n (suc j) ((x ∷ bytes) ++ back) b)
        (put_byte_lem tag j (varint 10 n ++ ((x ∷ bytes) ++ back))))
    ∙ ap (λ rest. (ok tt, left j (tag ∷ rest))) (sym (append_assoc (varint 10 n) (x ∷ bytes) back))

-- A field is written into the last bytes that are left, as many as `Size` counts for it.
pub put_field_lem :
    (tag j : ℕ) (bytes back : Bytes)
    → length bytes < 2 ^ 64
    → put_field tag bytes (left (j + size_bytes bytes) back)
      ≡ (ok tt, left j (bytes_field tag bytes ++ back))
unfolding size_bytes bytes_field
put_field_lem tag j [] back b =
    let same : j + 0 ≡ j = omega arith in
    unfold put_field pure in ap (λ i. (ok tt, left i back)) same
put_field_lem tag j (x ∷ bytes) back b =
    let n = length (x ∷ bytes) in
    let same : j + (1 + n + sov n) ≡ suc j + sov n + n = omega arith in
    ap (λ i. put_field tag (x ∷ bytes) (left i back)) same ∙ put_full_field tag j x bytes back b

pub put_uint_lem :
    (tag j v : ℕ) (back : Bytes)
    → v < 2 ^ 64
    → put_uint tag v (left (j + size_uint v) back) ≡ (ok tt, left j (uint_field tag v ++ back))
unfolding size_uint put_uint uint_field
put_uint_lem tag j zero back b =
    let same : j + 0 ≡ j = omega arith in unfold pure in ap (λ i. (ok tt, left i back)) same
put_uint_lem tag j (suc n) back b =
    let positive : (suc n == 0) ≡ false = ground arith in
    let size : j + size_uint (suc n) ≡ suc j + sov (suc n) = rw (positive) (omega arith) in
    ap (λ i. put_uint tag (suc n) (left i back)) size
    ∙ (rw (put_uint, positive)
        (then_ok (put_varint (suc n)) (put_byte tag) _ _ _ (put_varint_lem (suc n) (suc j) back b)
          (put_byte_lem tag j (varint 10 (suc n) ++ back))))

pub length-bytes_field :
    (tag : ℕ) (bytes : Bytes)
    → length bytes < 2 ^ 64
    → length (bytes_field tag bytes) ≡ size_bytes bytes
unfolding size_bytes bytes_field
length-bytes_field tag [] b = refl
length-bytes_field tag (x ∷ bytes) b =
    let n = length (x ∷ bytes) in
    omega (arith, length-append (varint 10 n) (x ∷ bytes), length-varint n b)

pub length-uint_field : (tag v : ℕ) → v < 2 ^ 64 → length (uint_field tag v) ≡ size_uint v
unfolding size_uint uint_field
length-uint_field tag zero b = refl
length-uint_field tag (suc n) b =
    let positive : (suc n == 0) ≡ false = ground arith in
    rw (positive) (omega (arith, length-varint (suc n) b))
