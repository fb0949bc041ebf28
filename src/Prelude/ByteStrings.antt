-- ===== src/Prelude/ByteStrings.antt =====
-- Go strings and byte slices are sequences of bytes.
use Prim.Native.Nat.{ℕ}
use Prim.Native.Char.{code}
use Prim.Native.String.{String}
use mathlib.Core.Path.{◌≡◌, refl, sym}
use mathlib.Core.Logic.{◌↔◌, inl, inr}
use mathlib.Core.Bool.{Bool, true, false, ◌&&◌, ◌||◌}
use mathlib.Core.List.{List, [], ◌∷◌}
use native.Mathlib.Omega.{arith}
use veranatest.Prelude.Tests.{◌==◌, Bool-cases}
use veranatest.Prelude.Lists.{Listed}

abbrev pub Bytes : Type 0
Bytes = List ℕ

-- The bytes of an ASCII literal.
abbrev pub ascii : String → Bytes
ascii String.[] = []
ascii (String.◌∷◌ c s) = code c ∷ ascii s

unfoldable pub bytes_eq : Bytes → Bytes → Bool
bytes_eq [] [] = true
bytes_eq (a ∷ as') (b ∷ bs) = a == b && bytes_eq as' bs
bytes_eq _ _ = false

abbrev pub is_empty : Bytes → Bool
is_empty [] = true
is_empty (a ∷ rest) = false

pub bytes_eq→eq : (a b : Bytes) → bytes_eq a b ≡ true → a ≡ b
unfolding bytes_eq
bytes_eq→eq [] [] h = refl
bytes_eq→eq [] (y ∷ b) h = ground arith
bytes_eq→eq (x ∷ a) [] h = ground arith
bytes_eq→eq (x ∷ a) (y ∷ b) h = ground (arith, bytes_eq→eq a b)

pub bytes_eq_refl : (a : Bytes) → bytes_eq a a ≡ true
unfolding bytes_eq
bytes_eq_refl [] = refl
bytes_eq_refl (x ∷ a) = ground (arith, bytes_eq_refl a)

pub bytes_eq_iff : (a b : Bytes) → (bytes_eq a b ≡ true) ↔ (a ≡ b)
bytes_eq_iff a b = (bytes_eq→eq a b, λ e. ground (arith, e, bytes_eq_refl a))

pub is_empty_ne : (b : Bytes) → (b ≡ [] → ⊥) → is_empty b ≡ false
is_empty_ne [] h = absurd (h refl)
is_empty_ne (x ∷ b) h = refl

pub bytes_neq : (a b : Bytes) → bytes_eq a b ≡ false → a ≡ b → ⊥
bytes_neq a b h e = ground (arith, e, h, bytes_eq_refl a)

-- The bytes begin with a prefix.
unfoldable pub has_prefix : Bytes → Bytes → Bool
has_prefix [] key = true
has_prefix (b ∷ prefix) [] = false
has_prefix (b ∷ prefix) (c ∷ key) = b == c && has_prefix prefix key

-- The text stands in the list.
abbrev pub has_member : List Bytes → Bytes → Bool
has_member [] x = false
has_member (y ∷ ys) x = bytes_eq y x || has_member ys x

pub has_member-Listed : (xs : List Bytes) (x : Bytes) → has_member xs x ≡ true → Listed x xs
has_member-Listed [] x h = ground arith
has_member-Listed (y ∷ ys) x h = elim (Bool-cases (bytes_eq y x)) [
  | inl e ↦ inl (sym (bytes_eq→eq y x e))
  | inr e ↦ inr (has_member-Listed ys x (ground arith))
]

pub Listed-has_member : (xs : List Bytes) (x : Bytes) → Listed x xs → has_member xs x ≡ true
Listed-has_member [] x h = absurd h
Listed-has_member (y ∷ ys) x (inl e) = ground (arith, e, bytes_eq_refl y)
Listed-has_member (y ∷ ys) x (inr l) = ground (arith, Listed-has_member ys x l)
