-- ===== src/Wire/Decoder/Unmarshal.antt =====
-- Unmarshal of a Validator on any bytes: the loop over the fields, and the call.
use veranatest.Wire.Decoder.Skipping.{skip_field-Ends}
use veranatest.Prelude.{
  Bool-cases, Bytes, Error, Outcome, arith, err, false, if◌then◌else◌, inl, inr, length, ltb, ok,
  panicked, pure, refl, suc, zero, ℕ, ◌%◌, ◌-◌, ◌/◌, ◌<◌, ◌==◌, ◌>>=◌, ◌>>◌, ◌^◌, ◌≡◌, ◌⊎◌,
}
use veranatest.Wire.Decoder.Ends.{Ends, Ends-bind, Ends-guard, Ends-if, Ends-pure, EndsIn}
use veranatest.Wire.Decoder.{
  expect_wire_type, next_field, read_string, read_uint64, set_field, skip_field, unmarshal_from,
  unmarshal_validator,
}
use veranatest.Wire.Decoder.Reading.{After, Ends-position, read_string-Ends, read_uint64-Ends}
use veranatest.Registry.Types.{Validator}

module _ (bytes : Bytes) (short : length bytes < 2 ^ 63) where
  set_string-Ends :
      (put : Bytes → Validator) (pre i wire_type : ℕ)
      → After bytes pre i
      → Ends (do v ← read_string bytes wire_type; pure (put v)) i (λ m t. After bytes pre t)
  set_string-Ends put pre i wire_type before =
      Ends-bind (read_string bytes wire_type) _ _ (read_string-Ends bytes short i wire_type)
        (λ v t after. Ends-pure (put v) (omega (arith, before, after), after.1))

  set_uint-Ends :
      (put : ℕ → Validator) (pre i wire_type : ℕ)
      → After bytes pre i
      → Ends
          (do expect_wire_type 0 wire_type; v ← read_uint64 bytes 10 0 0; pure (put v))
          i
          (λ m t. After bytes pre t)
  unfolding expect_wire_type
  set_uint-Ends put pre i wire_type before = Ends-guard _ _ _ (λ right.
      Ends-bind (read_uint64 bytes 10 0 0) _ _ (read_uint64-Ends bytes 10 0 0 i)
        (λ v t after. Ends-pure (put v) (omega (arith, before, after), after.1)))

  set_field-Ends :
      (m : Validator) (pre field_num wire_type i : ℕ)
      → After bytes pre i
      → Ends (set_field bytes m pre field_num wire_type) i (λ changed t. After bytes pre t)
  unfolding set_field
  set_field-Ends m pre field_num wire_type i before =
      Ends-if (field_num == 1) _ _ (λ is1. set_string-Ends _ pre i wire_type before)
        (λ not1.
          Ends-if (field_num == 2) _ _ (λ is2. set_string-Ends _ pre i wire_type before)
            (λ not2.
              Ends-if (field_num == 3) _ _ (λ is3. set_string-Ends _ pre i wire_type before)
                (λ not3.
                  Ends-if (field_num == 4) _ _ (λ is4. set_string-Ends _ pre i wire_type before)
                    (λ not4.
                      Ends-if (field_num == 5) _ _ (λ is5. set_string-Ends _ pre i wire_type before)
                        (λ not5.
                          Ends-if (field_num == 6) _ _
                            (λ is6. set_uint-Ends _ pre i wire_type before)
                            (λ not6.
                              Ends-bind (skip_field bytes pre) _ _
                                (skip_field-Ends bytes pre i short (omega (arith, before)))
                                (λ u t after. Ends-pure m after)))))))

  next_field-Ends :
      (m : Validator) (i : ℕ) → Ends (next_field bytes m) i (λ changed t. After bytes i t)
  unfolding next_field
  next_field-Ends m i = Ends-position _ i (
      Ends-bind (read_uint64 bytes 10 0 0) _ _ (read_uint64-Ends bytes 10 0 0 i) (λ wire t after.
        Ends-guard _ _ _ (λ kind.
          Ends-guard _ _ _ (λ legal. set_field-Ends m i ((wire / 8) % 2 ^ 32) (wire % 8) t after))))

  last_test :
      (m : Validator) (i : ℕ)
      → ltb i (length bytes) ≡ false
      → EndsIn
          (if ltb (length bytes) i then (err Error.unexpected_eof, i) else (ok m, i))
          (λ read t. t ≡ length bytes)
  last_test m i over = elim (Bool-cases (ltb (length bytes) i)) [
    | inl beyond ↦ rw (beyond) tt
    | inr inside ↦ rw (inside) (ground arith)
  ]

  unmarshal_from-Ends :
      (fuel : ℕ) (m : Validator) (i : ℕ)
      → length bytes - i < fuel
      → Ends (unmarshal_from fuel bytes m) i (λ read t. t ≡ length bytes)
  unfolding unmarshal_from
  unmarshal_from-Ends zero m i enough = absurd (omega arith)
  unmarshal_from-Ends (suc fuel) m i enough = elim (Bool-cases (ltb i (length bytes))) [
    | inl more ↦ record {
      at =
          rw (more)
            (Ends-bind (next_field bytes m) _ _ (next_field-Ends m i)
              (λ changed t after. unmarshal_from-Ends fuel changed t (ground (arith, after)))).at;
    }
    | inr over ↦ record { at = rw (over) (last_test m i over) }
  ]

-- `Unmarshal` on any bytes, fewer than an int counts, ends with a record or an error: it never
-- panics, and the fuel of its loops is enough.
pub unmarshal_total :
    (m : Validator) (bytes : Bytes)
    → length bytes < 2 ^ 63
    → ((read : Validator) × (unmarshal_validator m bytes ≡ ok read))
      ⊎ ((e : Error) × (unmarshal_validator m bytes ≡ err e))
unfolding unmarshal_validator
unmarshal_total m bytes short =
    go (unmarshal_from (suc (length bytes)) bytes m 0)
      (unmarshal_from-Ends bytes short (suc (length bytes)) m 0 (omega arith)).at
  where
    go :
        (r : Outcome Validator × ℕ)
        → EndsIn r (λ read t. t ≡ length bytes)
        → ((read : Validator) × (r.0 ≡ ok read)) ⊎ ((e : Error) × (r.0 ≡ err e))
    go (ok read, t) h = inl (read, refl)
    go (err e, t) h = inr (e, refl)
    go (panicked, t) h = absurd h
