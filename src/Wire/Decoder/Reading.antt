-- ===== src/Wire/Decoder/Reading.antt =====
-- Reading a byte, a number or a string at an index ends with an error, or with an index that is
-- further on and in the slice.
use veranatest.Wire.Records.{first_bytes}
use veranatest.Prelude.{
  Bool-cases, Bytes, Error, Exec, [], arith, guard, inl, inr, leb, length, lift, ltb, malformed,
  negative_length, not, ok, pure, refl, suc, true, zero, ℕ, ◌+◌, ◌-◌, ◌<◌, ◌>>=◌, ◌>>◌, ◌^◌, ◌∷◌,
  ◌≡◌, ◌≤◌,
}
use veranatest.Wire.Decoder.Ends.{
  Ends, Ends-bind, Ends-guard, Ends-if, Ends-lift, Ends-pure, Ends-raise, Ends-weaken,
}
use veranatest.Wire.Decoder.{
  add_int, advance, drop_bytes, expect_wire_type, index_byte, is_negative, position, read_byte,
  read_string, read_uint64, slice_bytes,
}

index_byte_lem : (bytes : Bytes) (i : ℕ) → i < length bytes → (b : ℕ) × (index_byte bytes i ≡ ok b)
unfolding index_byte
index_byte_lem [] i h = absurd (omega arith)
index_byte_lem (b ∷ bytes) zero h = (b, refl)
index_byte_lem (b ∷ bytes) (suc i) h = index_byte_lem bytes i (omega arith)

-- The index after a number was read from `i` on.
abbrev pub After : Bytes → ℕ → ℕ → Type 0
After bytes i t = (i < t) × (t ≤ length bytes)

read_byte-Ends : (bytes : Bytes) (i : ℕ) → Ends (read_byte bytes) i (λ b t. After bytes i t)
unfolding read_byte
read_byte-Ends bytes i = elim (Bool-cases (leb (length bytes) i)) [
  | inl past ↦ record { at = rw (past) tt }
  | inr inside ↦
      let found = index_byte_lem bytes i (ground arith) in
      record { at = rw (inside, found.1) (omega arith, ground arith) }
]

pub read_uint64-Ends :
    (bytes : Bytes) (left shift acc i : ℕ)
    → Ends (read_uint64 bytes left shift acc) i (λ n t. After bytes i t)
unfolding read_uint64
read_uint64-Ends bytes zero shift acc i = Ends-raise Error.overflow
read_uint64-Ends bytes (suc left) shift acc i =
    Ends-bind (read_byte bytes) _ _ (read_byte-Ends bytes i) (λ b t after.
      Ends-if (ltb b 128) _ _ (λ small. Ends-pure _ after)
        (λ large.
          Ends-weaken (read_uint64-Ends bytes left (shift + 7) _ t)
            (λ n u later. (omega (arith, after, later), later.1))))

pub slice_bytes_lem :
    (bytes : Bytes) (from to : ℕ)
    → from ≤ to
    → to ≤ length bytes
    → slice_bytes bytes from to ≡ ok (first_bytes (to - from) (drop_bytes from bytes))
unfolding slice_bytes
slice_bytes_lem bytes from to h g = ground arith

pub non_negative : (n : ℕ) → not (is_negative n) ≡ true → n < 2 ^ 63
unfolding is_negative
non_negative n h = ground arith

module _ {B : Type 0} {Q : B → ℕ → Type 0} where
  pub Ends-position : (f : ℕ → Exec ℕ B) (i : ℕ) → Ends (f i) i Q → Ends (position >>= f) i Q
  unfolding ◌>>=◌ position
  Ends-position f i h = record { at = h.at }

  pub Ends-advance : (n i : ℕ) (k : Exec ℕ B) → Ends k (add_int i n) Q → Ends (advance n >> k) i Q
  unfolding ◌>>=◌ advance
  Ends-advance n i k h = record { at = h.at }

module _ (bytes : Bytes) (short : length bytes < 2 ^ 63) where
  pub add_int_lem : (a b : ℕ) → a < 2 ^ 63 → b < 2 ^ 63 → add_int a b ≡ a + b
  unfolding add_int
  add_int_lem a b h g = omega arith

  read_field-Ends :
      (i start n : ℕ)
      → After bytes i start
      → n < 2 ^ 63
      → Ends
          (do
            let post_index = add_int start n
            guard (not (is_negative post_index)) (malformed negative_length)
            guard (leb post_index (length bytes)) Error.unexpected_eof
            field ← lift (slice_bytes bytes start post_index)
            advance n
            pure field)
          start
          (λ field t. After bytes i t)
  read_field-Ends i start n after positive =
      let sum = add_int_lem start n (omega arith) positive in
      Ends-guard _ _ _ (λ a. Ends-guard _ _ _ (λ b.
        Ends-lift (slice_bytes bytes start (add_int start n)) _ (λ field. Unit {0})
          (rw (slice_bytes_lem bytes start (add_int start n) (omega arith) (ground arith)) tt)
          (λ field u. Ends-advance n start _ (Ends-pure field (rw (sum) (ground (arith, sum)))))))

  pub read_string-Ends :
      (i wire_type : ℕ) → Ends (read_string bytes wire_type) i (λ field t. After bytes i t)
  unfolding read_string expect_wire_type
  read_string-Ends i wire_type = Ends-guard _ _ _ (λ right.
      Ends-bind (read_uint64 bytes 10 0 0) _ _ (read_uint64-Ends bytes 10 0 0 i) (λ n t after.
        Ends-guard _ _ _
          (λ sign. Ends-position _ t (read_field-Ends i t n after (non_negative n sign)))))
