-- ===== src/Testnets/MultiNode/Paths.antt =====
-- Paths below a directory, as filepath.Rel and filepath.Base see them.
use veranatest.Sdk.Nodes.{FilePath}
use veranatest.Testnets.MultiNode.Files.{base, goes_up, relative, up_from}
use veranatest.Prelude.{
  Bool-cases, Bytes, [], ap, append_assoc, ap₂, arith, bytes_eq, bytes_eq_refl, bytes_eq→eq, false,
  has_prefix, inl, inr, length, length-append, refl, sym, true, ◌++◌, ◌∙◌, ◌∷◌, ◌≡◌, ◌≢◌,
}

relative-below : (dir rest : FilePath) → relative dir (dir ++ rest) ≡ rest
unfolding relative
relative-below [] rest = refl
relative-below (x ∷ dir) rest = rw (bytes_eq_refl x) (relative-below dir rest)

-- A path that does not go up stands below the directory.
below :
    (dir target : FilePath)
    → goes_up (relative dir target) ≡ false
    → (rest : FilePath) × (target ≡ dir ++ rest)
unfolding relative goes_up up_from has_prefix bytes_eq
below [] target h = (target, refl)
below (x ∷ dir) [] h = absurd (let g : true ≡ false = h in cc)
below (x ∷ dir) (y ∷ target) h = elim (Bool-cases (bytes_eq x y)) [
  | inl e ↦
      let (rest, below_it) = below dir target (rw (e) at h) in
      (rest, ap₂ (λ a b. a ∷ b) (sym (bytes_eq→eq x y e)) below_it)
  | inr e ↦ absurd (let g : true ≡ false = rw (e) at h in cc)
]

append_injective : (a b c d : FilePath) → length a ≡ length b → a ++ c ≡ b ++ d → a ≡ b
append_injective [] [] c d n h = refl
append_injective [] (y ∷ b) c d n h = absurd (omega arith)
append_injective (x ∷ a) [] c d n h = absurd (omega arith)
append_injective (x ∷ a) (y ∷ b) c d n h =
    let heads : x ≡ y = cc in
    let tails : a ++ c ≡ b ++ d = cc in
    ap₂ (λ z zs. z ∷ zs) heads (append_injective a b c d (omega arith) tails)

pub base_last : (dir : FilePath) (x : Bytes) → base (dir ++ (x ∷ [])) ≡ x
unfolding base
base_last [] x = refl
base_last (y ∷ []) x = refl
base_last (y ∷ z ∷ dir) x = base_last (z ∷ dir) x

pub last_injective : (a b : FilePath) (x y : Bytes) → a ++ (x ∷ []) ≡ b ++ (y ∷ []) → x ≡ y
last_injective a b x y h = sym (base_last a x) ∙ (ap base h ∙ base_last b y)

cancel : (root a b : FilePath) → root ++ a ≡ root ++ b → a ≡ b
cancel [] a b h = h
cancel (x ∷ root) a b h = let tails : root ++ a ≡ root ++ b = cc in cancel root a b tails

-- A file below a directory of the same depth as its own stands in that directory.
pub in_same_dir :
    (root own dir : FilePath) (x : Bytes)
    → length own ≡ length dir
    → goes_up (relative (root ++ dir) (root ++ (own ++ (x ∷ [])))) ≡ false
    → own ≡ dir
in_same_dir root own dir x n h =
    let (rest, e) = below (root ++ dir) _ h in
    cancel root own dir (
      append_injective (root ++ own) (root ++ dir) (x ∷ []) rest
        (omega (arith, n, length-append root own, length-append root dir))
        (append_assoc root own (x ∷ []) ∙ e))

-- A file that stands in the directory does not go up from it, unless its name does.
pub away_from_dir :
    (root own dir : FilePath) (x : Bytes)
    → goes_up (x ∷ []) ≡ false
    → length own ≡ length dir
    → goes_up (relative (root ++ dir) (root ++ (own ++ (x ∷ [])))) ≡ true
    → own ++ (x ∷ []) ≢ dir ++ (x ∷ [])
away_from_dir root own dir x plain n h e =
    let there : relative (root ++ dir) (root ++ (own ++ (x ∷ []))) ≡ x ∷ [] =
      ap (λ p. relative (root ++ dir) (root ++ p)) e
      ∙ (ap (relative (root ++ dir)) (sym (append_assoc root dir (x ∷ [])))
          ∙ relative-below (root ++ dir) (x ∷ [])) in
    let clash : true ≡ false = sym h ∙ (ap goes_up there ∙ plain) in cc
