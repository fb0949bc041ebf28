-- ===== src/Wire/Decoder/Skipping.antt =====
-- Skipping a field that the type does not have ends with an error or behind the field.
use veranatest.Prelude.{
  Bool-cases, Bytes, Outcome, [], arith, err, false, inl, inr, leb, length, ok, panicked, pure,
  refl, suc, zero, ℕ, ◌%◌, ◌+◌, ◌-◌, ◌<◌, ◌==◌, ◌>>◌, ◌^◌, ◌∷◌, ◌≡◌, ◌≤◌,
}
use veranatest.Wire.Decoder.Ends.{
  Ends, Ends-bind, Ends-guard, Ends-if, Ends-lift, Ends-pure, Ends-raise, Ends-weaken, EndsIn,
}
use veranatest.Wire.Decoder.{
  advance, drop_bytes, read_uint64, skip_field, skip_from, skip_validator, skip_value, slice_bytes,
}
use veranatest.Wire.Records.{first_bytes}
use veranatest.Wire.Decoder.Reading.{
  After, Ends-advance, Ends-position, add_int_lem, non_negative, read_uint64-Ends, slice_bytes_lem,
}

length-first_bytes : (n : ℕ) (bytes : Bytes) → length (first_bytes n bytes) ≤ length bytes
unfolding first_bytes
length-first_bytes zero bytes = omega arith
length-first_bytes (suc n) [] = omega arith
length-first_bytes (suc n) (b ∷ bytes) = omega (arith, length-first_bytes n bytes)

length-drop_bytes : (n : ℕ) (bytes : Bytes) → length (drop_bytes n bytes) ≤ length bytes
unfolding drop_bytes
length-drop_bytes zero bytes = omega arith
length-drop_bytes (suc n) [] = omega arith
length-drop_bytes (suc n) (b ∷ bytes) = omega (arith, length-drop_bytes n bytes)

module _ (bytes : Bytes) (short : length bytes < 2 ^ 63) where
  advance-Ends :
      (n t depth : ℕ)
      → t ≤ length bytes
      → n < 2 ^ 63
      → Ends (do advance n; pure depth) t (λ d u. t ≤ u)
  advance-Ends n t depth inside small =
      let sum = add_int_lem bytes short t n (omega arith) small in
      Ends-advance n t _ (Ends-pure depth (omega (arith, sum)))

  skip_value-Ends :
      (depth wire_type t : ℕ)
      → t ≤ length bytes
      → Ends (skip_value bytes depth wire_type) t (λ d u. t ≤ u)
  unfolding skip_value
  skip_value-Ends depth wire_type t inside =
      Ends-if (wire_type == 0) _ _
        (λ is0.
          Ends-bind (read_uint64 bytes 10 0 0) _ _ (read_uint64-Ends bytes 10 0 0 t)
            (λ n u after. Ends-pure depth (omega (arith, after))))
        (λ not0.
          Ends-if (wire_type == 1) _ _ (λ is1. advance-Ends 8 t depth inside (omega arith))
            (λ not1.
              Ends-if (wire_type == 2) _ _
                (λ is2.
                  Ends-bind (read_uint64 bytes 10 0 0) _ _ (read_uint64-Ends bytes 10 0 0 t)
                    (λ n u after. Ends-guard _ _ _ (λ sign.
                      Ends-weaken (advance-Ends n u depth after.1 (non_negative n sign))
                        (λ d v later. omega (arith, after, later)))))
                (λ not2.
                  Ends-if (wire_type == 3) _ _ (λ is3. Ends-pure (depth + 1) (omega arith))
                    (λ not3.
                      Ends-if (wire_type == 4) _ _
                        (λ is4.
                          Ends-if (depth == 0) _ _ (λ top. Ends-raise _)
                            (λ inner. Ends-pure (depth - 1) (omega arith)))
                        (λ not4.
                          Ends-if (wire_type == 5) _ _
                            (λ is5. advance-Ends 4 t depth inside (omega arith))
                            (λ not5. Ends-raise _))))))

  less_fuel :
      (fuel i t u : ℕ)
      → leb (length bytes) i ≡ false
      → length bytes - i < suc fuel
      → i < t
      → t ≤ u
      → length bytes - u < fuel
  less_fuel fuel i t u inside enough after later = ground arith

  pub skip_from-Ends :
      (fuel depth i : ℕ)
      → length bytes - i < fuel
      → Ends (skip_from fuel bytes depth) i (λ n t. (i < n) × (n < 2 ^ 63))
  unfolding skip_from
  skip_from-Ends zero depth i enough = absurd (omega arith)
  skip_from-Ends (suc fuel) depth i enough = elim (Bool-cases (leb (length bytes) i)) [
    | inl past ↦ record { at = rw (past) tt }
    | inr inside ↦ record {
      at =
          rw (inside)
            (Ends-bind (read_uint64 bytes 10 0 0) _ _ (read_uint64-Ends bytes 10 0 0 i)
              (λ wire t after.
                Ends-bind (skip_value bytes depth (wire % 8)) _ _
                  (skip_value-Ends depth (wire % 8) t after.1)
                  (λ deeper u later. Ends-position _ u (
                    Ends-guard _ _ _ (λ sign.
                      Ends-if (deeper == 0) _ _
                        (λ done. Ends-pure u (omega (arith, after, later), non_negative u sign))
                        (λ more.
                          Ends-weaken
                            (skip_from-Ends fuel deeper u
                              (less_fuel fuel i t u inside enough after.0 later))
                            (λ n v rest. (omega (arith, after, later, rest), rest.1)))))))).at;
    }
  ]

skip_validator-Ends :
    (bytes : Bytes) (i : ℕ)
    → length bytes < 2 ^ 63
    → EndsIn (skip_validator bytes, i) (λ n t. (0 < n) × (n < 2 ^ 63))
unfolding skip_validator
skip_validator-Ends bytes i short =
    go (skip_from (suc (length bytes)) bytes 0 0)
      (skip_from-Ends bytes short (suc (length bytes)) 0 0 (omega arith)).at
  where
    go :
        (r : Outcome ℕ × ℕ)
        → EndsIn r (λ n t. (0 < n) × (n < 2 ^ 63))
        → EndsIn (r.0, i) (λ n t. (0 < n) × (n < 2 ^ 63))
    go (ok n, t) h = h
    go (err e, t) h = tt
    go (panicked, t) h = absurd h

pub skip_field-Ends :
    (bytes : Bytes) (pre_index i : ℕ)
    → length bytes < 2 ^ 63
    → pre_index ≤ length bytes
    → Ends (skip_field bytes pre_index) i (λ u t. After bytes pre_index t)
unfolding skip_field
skip_field-Ends bytes pre i short inside =
    let rest = first_bytes (length bytes - pre) (drop_bytes pre bytes) in
    let shorter : length rest < 2 ^ 63 = omega (
      arith,
      length-first_bytes (length bytes - pre) (drop_bytes pre bytes),
      length-drop_bytes pre bytes,
    ) in
    Ends-lift (slice_bytes bytes pre (length bytes)) _ (λ r. r ≡ rest)
      (rw (slice_bytes_lem bytes pre (length bytes) inside (omega arith)) refl)
      (λ r same.
        Ends-lift (skip_validator r) _ (λ n. (0 < n) × (n < 2 ^ 63))
          (rw (same) (skip_validator-Ends rest i shorter))
          (λ n bounds.
            let sum = add_int_lem bytes short pre n (omega arith) bounds.1 in
            Ends-guard _ _ _ (λ signs.
              Ends-guard _ _ _
                (λ within. record { at = (omega (arith, sum, bounds), ground arith) }))))
