-- ===== src/Wire/Varints.antt =====
-- Variable-length integers: reading gives back what was written, and the predicted length is right.
use veranatest.Wire.{len64, or_one, read_varint, sov, varint}
use veranatest.Prelude.{
  Bool-cases, Bytes, ap, arith, false, inl, inr, length, ltb, ok, refl, subst, suc, sym, true, zero,
  ℕ, ◌%◌, ◌*◌, ◌++◌, ◌+◌, ◌-◌, ◌/◌, ◌<◌, ◌^◌, ◌∙◌, ◌∷◌, ◌≡◌, ◌≤◌,
}

seven_doublings : (s : ℕ) → 2 ^ suc (suc (suc (suc (suc (suc (suc s)))))) ≡ 128 * 2 ^ s
seven_doublings s = omega arith

power_step : (s : ℕ) → 2 ^ (s + 7) ≡ 128 * 2 ^ s
power_step s =
    let sucs : s + 7 ≡ suc (suc (suc (suc (suc (suc (suc s)))))) = omega arith in
    ap (λ n. 2 ^ n) sucs ∙ seven_doublings s

regroup : (acc q r p : ℕ) → acc + r * p + q * (128 * p) ≡ acc + (128 * q + r) * p
regroup acc q r p = omega arith

-- The number after the low seven bits are taken and the rest is read seven bits further.
split_sum : (acc v s : ℕ) → acc + v % 128 * 2 ^ s + v / 128 * 2 ^ (s + 7) ≡ acc + v * 2 ^ s
split_sum acc v s =
    let parts : 128 * (v / 128) + v % 128 ≡ v = omega arith in
    ap (λ p. acc + v % 128 * 2 ^ s + v / 128 * p) (power_step s)
    ∙ (regroup acc (v / 128) (v % 128) (2 ^ s) ∙ ap (λ n. acc + n * 2 ^ s) parts)

add_bits :
    (acc b r p : ℕ)
    → b % 128 ≡ r
    → acc + r * p < 2 ^ 64
    → acc + (b % 128 * p) % 2 ^ 64 ≡ acc + r * p
add_bits acc b r p e h = rw (e) (omega arith)

read_last :
    (left shift acc v : ℕ) (rest : Bytes)
    → ltb v 128 ≡ true
    → acc + v * 2 ^ shift < 2 ^ 64
    → read_varint (suc left) shift acc (varint (suc left) v ++ rest)
      ≡ ok (acc + v * 2 ^ shift, rest)
unfolding read_varint varint
read_last left shift acc v rest small b =
    let low : v % 128 ≡ v = ground arith in
    rw (small) (rw (small) (ap (λ n. ok (n, rest)) (add_bits acc v v (2 ^ shift) low b)))

read_more :
    (left shift acc b : ℕ) (rest : Bytes)
    → ltb b 128 ≡ false
    → read_varint (suc left) shift acc (b ∷ rest)
      ≡ read_varint left (shift + 7) (acc + (b % 128 * 2 ^ shift) % 2 ^ 64) rest
unfolding read_varint
read_more left shift acc b rest h = rw (h) refl

pub varint_more :
    (left v : ℕ) → ltb v 128 ≡ false → varint (suc left) v ≡ (v % 128 + 128) ∷ varint left (v / 128)
unfolding varint
varint_more left v h = rw (h) refl

pub above : (r : ℕ) → ltb (r + 128) 128 ≡ false
above r = ground arith

-- Reading what was written for a number below 128 to the number of rounds gives the number, and
-- leaves the bytes after it.
pub read-varint :
    (left shift acc v : ℕ) (rest : Bytes)
    → v < 128 ^ suc left
    → acc + v * 2 ^ shift < 2 ^ 64
    → read_varint (suc left) shift acc (varint (suc left) v ++ rest)
      ≡ ok (acc + v * 2 ^ shift, rest)
read-varint zero shift acc v rest h b = read_last zero shift acc v rest (ground arith) b
read-varint (suc n) shift acc v rest h b = elim (Bool-cases (ltb v 128)) [
  | inl small ↦ read_last (suc n) shift acc v rest small b
  | inr large ↦
      let sum = split_sum acc v shift in
      let first : acc + ((v % 128 + 128) % 128 * 2 ^ shift) % 2 ^ 64 ≡ acc + v % 128 * 2 ^ shift =
        add_bits acc (v % 128 + 128) (v % 128) (2 ^ shift) (omega arith) (omega (arith, sum)) in
      ap (λ bytes. read_varint (suc (suc n)) shift acc (bytes ++ rest))
        (varint_more (suc n) v large)
      ∙ (read_more (suc n) shift acc (v % 128 + 128) _ (above (v % 128))
          ∙ (ap (λ m. read_varint (suc n) (shift + 7) m (varint (suc n) (v / 128) ++ rest)) first
              ∙ (read-varint n (shift + 7) (acc + v % 128 * 2 ^ shift) (v / 128) rest (omega arith)
                    (omega (arith, sum))
                  ∙ ap (λ m. ok (m, rest)) sum)))
]

half-len : (fuel x : ℕ) → 1 ≤ x → len64 (suc fuel) x ≡ suc (len64 fuel (x / 2))
unfolding len64
half-len fuel x h = ground arith

len_zero : (fuel : ℕ) → len64 fuel 0 ≡ 0
unfolding len64
len_zero zero = refl
len_zero (suc fuel) = refl

-- A number from 128 on has seven bits more than its quotient by 128.
len-div :
    (fuel x : ℕ)
    → 128 ≤ x
    → len64 (suc (suc (suc (suc (suc (suc (suc fuel))))))) x ≡ 7 + len64 fuel (x / 128)
len-div fuel x h =
    let seven : x / 2 / 2 / 2 / 2 / 2 / 2 / 2 ≡ x / 128 = omega arith in
    rw
      (
        half-len _ x (omega arith),
        half-len _ (x / 2) (omega arith),
        half-len _ (x / 2 / 2) (omega arith),
        half-len _ (x / 2 / 2 / 2) (omega arith),
        half-len _ (x / 2 / 2 / 2 / 2) (omega arith),
        half-len _ (x / 2 / 2 / 2 / 2 / 2) (omega arith),
        half-len fuel (x / 2 / 2 / 2 / 2 / 2 / 2) (omega arith),
        seven,
      )
      (omega arith)

len_bound : (fuel n x : ℕ) → x < 2 ^ n → len64 fuel x ≤ n
unfolding len64
len_bound zero n x h = omega arith
len_bound (suc fuel) zero x h = ground arith
len_bound (suc fuel) (suc n) x h =
    let r = len_bound fuel n (x / 2) (omega arith) in ground (arith, r)

-- The number of bits that `rounds` rounds and one bit hold.
abbrev bits : ℕ → ℕ
bits zero = 1
bits (suc rounds) = suc (suc (suc (suc (suc (suc (suc (bits rounds)))))))

pub length_last : (left v : ℕ) → ltb v 128 ≡ true → length (varint (suc left) v) ≡ 1
unfolding varint
length_last left v h = rw (h) refl

one_bit : 1 ≡ (len64 1 1 + 6) / 7
unfolding len64
one_bit = refl

length_positive :
    (left v : ℕ)
    → 1 ≤ v
    → v < 2 ^ bits left
    → length (varint (suc left) v) ≡ (len64 (bits left) v + 6) / 7
length_positive zero v p h =
    let one : v ≡ 1 = omega arith in
    length_last zero v (ground arith) ∙ (one_bit ∙ ap (λ x. (len64 1 x + 6) / 7) (sym one))
length_positive (suc n) v p h = elim (Bool-cases (ltb v 128)) [
  | inl small ↦
      let most = len_bound (bits (suc n)) 7 v (ground arith) in
      let least = half-len (suc (suc (suc (suc (suc (suc (bits n))))))) v p in
      length_last (suc n) v small ∙ omega (arith, most, least)
  | inr large ↦
      let fits : v < 128 * 2 ^ bits n = subst (λ p. v < p) (seven_doublings (bits n)) h in
      let rest = length_positive n (v / 128) (ground arith) (omega arith) in
      let more = len-div (bits n) v (ground arith) in
      ap length (varint_more (suc n) v large) ∙ omega (arith, rest, more)
]

or_one_lem : (fuel x : ℕ) → 1 ≤ x → len64 (suc fuel) (or_one x) ≡ len64 (suc fuel) x
unfolding or_one
or_one_lem fuel x h =
    let halves : (x + (1 - x % 2)) / 2 ≡ x / 2 = omega arith in
    half-len fuel (x + (1 - x % 2)) (omega arith)
    ∙ (ap (λ y. suc (len64 fuel y)) halves ∙ sym (half-len fuel x h))

-- The predicted length of an uint64 is the number of bytes that are written for it.
pub length-varint : (v : ℕ) → v < 2 ^ 64 → length (varint 10 v) ≡ sov v
unfolding sov or_one len64 varint
length-varint zero h = refl
length-varint (suc n) h =
    length_positive 9 (suc n) (omega arith) h
    ∙ ap (λ l. (l + 6) / 7) (sym (or_one_lem 63 (suc n) (omega arith)))
