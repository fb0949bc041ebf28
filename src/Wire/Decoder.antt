-- ===== src/Wire/Decoder.antt =====
-- The decoding of a Validator: Unmarshal and skipValidator of
-- x/validatorregistry/types/validator.pb.go. The state is the index `iNdEx`; an `int` is kept as its
-- 64 bits, and is negative from 2 ^ 63 on. A loop that runs out of fuel counts as a panic. The
-- fields that were set before an error are left out.
pub mod Ends
pub mod Reading
pub mod Skipping
pub mod Unmarshal
pub mod Positions
pub mod Parts
pub mod Loop
pub mod Unknown
pub mod RoundTrip
mod Runs
use veranatest.Prelude.{
  Bool, Bytes, Error, Exec, Outcome, [], end_of_group, err, guard, if◌then◌else◌, illegal_tag,
  illegal_wire_type, leb, length, lift, ltb, malformed, negative_length, not, ok, panicked, pure,
  raise, suc, wrong_wire_type, zero, ℕ, ◌%◌, ◌*◌, ◌+◌, ◌-◌, ◌/◌, ◌==◌, ◌>>=◌, ◌>>◌, ◌^◌, ◌||◌, ◌∷◌,
}
use veranatest.Wire.Records.{first_bytes}
use veranatest.Registry.Types.{Validator}

-- `dAtA[i]`
unfoldable pub index_byte : Bytes → ℕ → Outcome ℕ
index_byte [] i = panicked
index_byte (b ∷ rest) zero = ok b
index_byte (b ∷ rest) (suc i) = index_byte rest i

unfoldable pub drop_bytes : ℕ → Bytes → Bytes
drop_bytes zero bytes = bytes
drop_bytes (suc n) [] = []
drop_bytes (suc n) (b ∷ bytes) = drop_bytes n bytes

-- `dAtA[from:to]`
unfoldable pub slice_bytes : Bytes → ℕ → ℕ → Outcome Bytes
unfolding first_bytes drop_bytes
slice_bytes bytes from to =
    if ltb to from || ltb (length bytes) to
    then panicked
    else ok (first_bytes (to - from) (drop_bytes from bytes))

-- `n < 0` for an int of the 64 bits `n`.
unfoldable pub is_negative : ℕ → Bool
is_negative n = leb (2 ^ 63) n

unfoldable pub add_int : ℕ → ℕ → ℕ
add_int a b = (a + b) % 2 ^ 64

-- `fieldNum <= 0` for an int32 of the 32 bits `n`.
unfoldable pub is_illegal : ℕ → Bool
is_illegal n = n == 0 || leb (2 ^ 31) n

-- `if iNdEx >= l { return io.ErrUnexpectedEOF }; b := dAtA[iNdEx]; iNdEx++`
unfoldable pub read_byte : Bytes → Exec ℕ ℕ
unfolding index_byte
read_byte bytes i =
    if leb (length bytes) i then (err Error.unexpected_eof, i) else (index_byte bytes i, i + 1)

-- The loop that reads a number, with `left` rounds before `shift >= 64`; `|=` as in `read_varint`.
unfoldable pub read_uint64 : Bytes → ℕ → ℕ → ℕ → Exec ℕ ℕ
unfolding read_byte
read_uint64 bytes zero shift acc = raise Error.overflow
read_uint64 bytes (suc left) shift acc = do
  b ← read_byte bytes
  let sum = acc + (b % 128 * 2 ^ shift) % 2 ^ 64
  if ltb b 128 then pure sum else read_uint64 bytes left (shift + 7) sum

unfoldable pub position : Exec ℕ ℕ
position i = (ok i, i)

unfoldable pub advance : ℕ → Exec ℕ (Unit {0})
unfolding add_int
advance n i = (ok tt, add_int i n)

-- `if wireType != n { return fmt.Errorf("proto: wrong wireType ...") }`
unfoldable pub expect_wire_type : ℕ → ℕ → Exec ℕ (Unit {0})
expect_wire_type n wire_type = guard (wire_type == n) (malformed wrong_wire_type)

-- The case of a string field.
unfoldable pub read_string : Bytes → ℕ → Exec ℕ Bytes
unfolding expect_wire_type read_uint64 is_negative position add_int advance slice_bytes
read_string bytes wire_type = do
  expect_wire_type 2 wire_type
  string_len ← read_uint64 bytes 10 0 0
  guard (not (is_negative string_len)) (malformed negative_length)
  start ← position
  let post_index = add_int start string_len
  guard (not (is_negative post_index)) (malformed negative_length)
  guard (leb post_index (length bytes)) Error.unexpected_eof
  field ← lift (slice_bytes bytes start post_index)
  advance string_len
  pure field

-- The switch of `skipValidator`: the depth after a value of a wire type. The loop of case 0 reads a
-- number without keeping it.
unfoldable pub skip_value : Bytes → ℕ → ℕ → Exec ℕ ℕ
unfolding read_uint64 advance is_negative
skip_value bytes depth wire_type =
    if wire_type == 0
    then (do ignored ← read_uint64 bytes 10 0 0; pure depth)
    else if wire_type == 1
    then (do advance 8; pure depth)
    else if wire_type == 2
    then (do
      size ← read_uint64 bytes 10 0 0
      guard (not (is_negative size)) (malformed negative_length)
      advance size
      pure depth)
    else if wire_type == 3
    then pure (depth + 1)
    else if wire_type == 4
    then (if depth == 0 then raise (malformed end_of_group) else pure (depth - 1))
    else if wire_type == 5
    then (do advance 4; pure depth)
    else raise (malformed illegal_wire_type)

-- The loop of `skipValidator`, in at most `fuel` rounds.
unfoldable pub skip_from : ℕ → Bytes → ℕ → Exec ℕ ℕ
unfolding skip_value read_uint64 position is_negative
skip_from zero bytes depth i = (panicked, i)
skip_from (suc fuel) bytes depth i =
    if leb (length bytes) i
    then (err Error.unexpected_eof, i)
    else (do
      wire ← read_uint64 bytes 10 0 0
      deeper ← skip_value bytes depth (wire % 8)
      next ← position
      guard (not (is_negative next)) (malformed negative_length)
      if deeper == 0 then pure next else skip_from fuel bytes deeper)
        i

-- `skipValidator`
unfoldable pub skip_validator : Bytes → Outcome ℕ
unfolding skip_from
skip_validator bytes = (skip_from (suc (length bytes)) bytes 0 0).0

-- The default of the switch: a field that the type does not have is skipped, from its tag on.
unfoldable pub skip_field : Bytes → ℕ → Exec ℕ (Unit {0})
unfolding slice_bytes skip_validator is_negative add_int
skip_field bytes pre_index = do
  rest ← lift (slice_bytes bytes pre_index (length bytes))
  skippy ← lift (skip_validator rest)
  let next = add_int pre_index skippy
  guard (not (is_negative skippy || is_negative next)) (malformed negative_length)
  guard (leb next (length bytes)) Error.unexpected_eof
  λ i. (ok tt, next)

-- The switch on `fieldNum`.
unfoldable pub set_field : Bytes → Validator → ℕ → ℕ → ℕ → Exec ℕ Validator
unfolding read_string read_uint64 expect_wire_type skip_field
set_field bytes m pre_index field_num wire_type =
    if field_num == 1
    then (do v ← read_string bytes wire_type; pure (record m { index = v }))
    else if field_num == 2
    then (do v ← read_string bytes wire_type; pure (record m { member_id = v }))
    else if field_num == 3
    then (do v ← read_string bytes wire_type; pure (record m { operator_address = v }))
    else if field_num == 4
    then (do v ← read_string bytes wire_type; pure (record m { consensus_pubkey = v }))
    else if field_num == 5
    then (do v ← read_string bytes wire_type; pure (record m { status = v }))
    else if field_num == 6
    then (do
      expect_wire_type 0 wire_type
      v ← read_uint64 bytes 10 0 0
      pure (record m { term_end = v }))
    else (do skip_field bytes pre_index; pure m)

-- One round of the loop of `Unmarshal`.
unfoldable pub next_field : Bytes → Validator → Exec ℕ Validator
unfolding position read_uint64 is_illegal set_field
next_field bytes m = do
  pre_index ← position
  wire ← read_uint64 bytes 10 0 0
  let field_num = (wire / 8) % 2 ^ 32
  let wire_type = wire % 8
  guard (not (wire_type == 4)) (malformed end_of_group)
  guard (not (is_illegal field_num)) (malformed illegal_tag)
  set_field bytes m pre_index field_num wire_type

-- The loop of `Unmarshal`, in at most `fuel` rounds.
unfoldable pub unmarshal_from : ℕ → Bytes → Validator → Exec ℕ Validator
unfolding next_field
unmarshal_from zero bytes m i = (panicked, i)
unmarshal_from (suc fuel) bytes m i =
    if ltb i (length bytes)
    then (do changed ← next_field bytes m; unmarshal_from fuel bytes changed) i
    else if ltb (length bytes) i
    then (err Error.unexpected_eof, i)
    else (ok m, i)

-- `Unmarshal` into the message `m`.
unfoldable pub unmarshal_validator : Validator → Bytes → Outcome Validator
unfolding unmarshal_from
unmarshal_validator m bytes = (unmarshal_from (suc (length bytes)) bytes m 0).0
