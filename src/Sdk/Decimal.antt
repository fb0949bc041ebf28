-- ===== src/Sdk/Decimal.antt =====
-- cosmossdk.io/math: `LegacyDec`, decimals with 18 places. Their operations may panic on an
-- overflow.
use veranatest.Prelude.{Bool, Bytes, Outcome, ok, ℕ, ◌*◌, ◌/◌, ◌≡◌}
use veranatest.Prelude.Int.{leb_ℤ, neg_part, pos, pos_part, ℤ, ◌+ℤ◌, ◌-ℤ◌, ◌≤ℤ◌}

-- 10^18, the number of atomic units in one.
abbrev pub precision : ℕ
precision = 1_000_000_000_000_000_000

pub record Decimals : Type 1 where
  pub LegacyDec : Type 0
  -- the value in atomic units
  pub atomics : LegacyDec → ℤ
  -- `LegacyDec{}`, as a field that was never set holds it
  pub nil_dec : LegacyDec
  -- `LegacyZeroDec()`
  pub zero_dec : LegacyDec
  -- `LegacyNewDecFromInt` and `LegacyNewDec`
  pub from_int : ℤ → LegacyDec
  pub add : LegacyDec → LegacyDec → Outcome LegacyDec
  pub sub : LegacyDec → LegacyDec → Outcome LegacyDec
  pub mul : LegacyDec → LegacyDec → Outcome LegacyDec
  pub quo : LegacyDec → LegacyDec → Outcome LegacyDec
  pub gte : LegacyDec → LegacyDec → Bool
  pub truncate_int : LegacyDec → Outcome ℤ
  -- `LegacyNewDecFromStr`
  pub from_str : Bytes → Outcome LegacyDec
  pub zero_dec_value : atomics zero_dec ≡ pos 0
  pub from_int_value :
      (i : ℤ)
      → (pos_part (atomics (from_int i)) ≡ pos_part i * precision)
        × (neg_part (atomics (from_int i)) ≡ neg_part i * precision)
  -- Sums and differences are exact.
  pub add_ok : (a b c : LegacyDec) → add a b ≡ ok c → atomics c ≡ atomics a +ℤ atomics b
  pub sub_ok : (a b c : LegacyDec) → sub a b ≡ ok c → atomics c ≡ atomics a -ℤ atomics b
  -- Products and quotients are rounded, and keep the sign rule.
  pub mul_nonneg :
      (a b c : LegacyDec)
      → mul a b ≡ ok c
      → pos 0 ≤ℤ atomics a
      → pos 0 ≤ℤ atomics b
      → pos 0 ≤ℤ atomics c
  pub quo_nonneg :
      (a b c : LegacyDec)
      → quo a b ≡ ok c
      → pos 0 ≤ℤ atomics a
      → pos 0 ≤ℤ atomics b
      → pos 0 ≤ℤ atomics c
  pub gte_value : (a b : LegacyDec) → gte a b ≡ leb_ℤ (atomics b) (atomics a)
  -- The decimals are cut off.
  pub truncate_ok :
      (a : LegacyDec) (i : ℤ)
      → truncate_int a ≡ ok i
      → pos 0 ≤ℤ atomics a
      → i ≡ pos (pos_part (atomics a) / precision)
