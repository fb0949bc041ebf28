-- ===== src/Wire.antt =====
-- The variable-length integers of the generated encodings: sovValidator, encodeVarintValidator and
-- the reading loop of Validator.Unmarshal in x/validatorregistry/types/validator.pb.go.
pub mod Varints
pub mod Buffers
pub mod Records
pub mod Fields
pub mod Marshal
pub mod Decoder
mod Tests
use veranatest.Prelude.{
  Bytes, Error, Outcome, [], err, if◌then◌else◌, ltb, ok, panicked, suc, zero, ℕ, ◌%◌, ◌*◌, ◌+◌,
  ◌-◌, ◌/◌, ◌==◌, ◌^◌, ◌∷◌,
}

-- `bits.Len64`, at most `fuel` bits.
unfoldable pub len64 : ℕ → ℕ → ℕ
len64 zero x = 0
len64 (suc fuel) x = let shorter = len64 fuel (x / 2) in if x == 0 then 0 else suc shorter

-- `x | 1`
unfoldable pub or_one : ℕ → ℕ
or_one x = x + (1 - x % 2)

-- `sovValidator`
unfoldable pub sov : ℕ → ℕ
unfolding len64 or_one
sov x = (len64 64 (or_one x) + 6) / 7

-- `dAtA[offset] = b`
unfoldable pub set_at : Bytes → ℕ → ℕ → Outcome Bytes
set_at [] offset b = panicked
set_at (x ∷ rest) zero b = ok (b ∷ rest)
set_at (x ∷ rest) (suc offset) b = elim (set_at rest offset b) [
  | ok changed ↦ ok (x ∷ changed)
  | err e ↦ err e
  | panicked ↦ panicked
]

-- The bytes that the loop writes, at most `fuel` of them.
unfoldable pub varint : ℕ → ℕ → Bytes
varint zero v = []
varint (suc fuel) v =
    let more = varint fuel (v / 128) in if ltb v 128 then v ∷ [] else (v % 128 + 128) ∷ more

-- The reading loop: `left` is the number of rounds before `shift >= 64`. The bits that a round adds
-- stand above those of `acc`, so `|=` is an addition.
unfoldable pub read_varint : ℕ → ℕ → ℕ → Bytes → Outcome (ℕ × Bytes)
read_varint zero shift acc bytes = err Error.overflow
read_varint (suc left) shift acc [] = err Error.unexpected_eof
read_varint (suc left) shift acc (b ∷ rest) =
    let sum = acc + (b % 128 * 2 ^ shift) % 2 ^ 64 in
    let more = read_varint left (shift + 7) sum rest in if ltb b 128 then ok (sum, rest) else more

-- The writing loop from `offset` on, in at most `fuel` rounds; it never runs out of ten for a uint64.
unfoldable pub fill : ℕ → Bytes → ℕ → ℕ → Outcome Bytes
unfolding set_at
fill zero buffer offset v = panicked
fill (suc fuel) buffer offset v =
    if ltb v 128 then set_at buffer offset v else elim (set_at buffer offset (v % 128 + 128)) [
      | ok changed ↦ fill fuel changed (offset + 1) (v / 128)
      | err e ↦ err e
      | panicked ↦ panicked
    ]

-- `encodeVarintValidator`; an index below 0 panics.
unfoldable pub encode_varint : Bytes → ℕ → ℕ → Outcome (Bytes × ℕ)
encode_varint buffer offset v =
    if ltb offset (sov v) then panicked else elim (fill 10 buffer (offset - sov v) v) [
      | ok changed ↦ ok (changed, offset - sov v)
      | err e ↦ err e
      | panicked ↦ panicked
    ]
