-- ===== src/Testnets/Texts.antt =====
-- Texts of the commands: lists that are separated by commas, as `strings.Split` reads them.
use veranatest.Prelude.{
  All, Bytes, List, [], ap, if◌then◌else◌, neq_false, refl, ℕ, ◌++◌, ◌==◌, ◌∙◌, ◌∷◌, ◌≡◌, ◌≢◌,
}

-- The byte of a comma.
abbrev pub comma : ℕ
comma = 44

unfoldable pub prepend : ℕ → List Bytes → List Bytes
prepend b [] = (b ∷ []) ∷ []
prepend b (word ∷ words) = (b ∷ word) ∷ words

-- `strings.Split(s, ",")`; the empty text gives one empty word.
unfoldable pub split_commas : Bytes → List Bytes
unfolding prepend
split_commas [] = [] ∷ []
split_commas (b ∷ rest) =
    let words = split_commas rest in if b == comma then [] ∷ words else prepend b words

-- The words with commas between them.
unfoldable pub join_commas : List Bytes → Bytes
join_commas [] = []
join_commas (word ∷ []) = word
join_commas (word ∷ next ∷ words) = word ++ (comma ∷ join_commas (next ∷ words))

abbrev pub HasNoComma : Bytes → Type 0
HasNoComma = All (λ b. b ≢ comma)

split_word :
    (word rest : Bytes)
    → HasNoComma word
    → split_commas (word ++ (comma ∷ rest)) ≡ word ∷ split_commas rest
unfolding split_commas prepend
split_word [] rest h = refl
split_word (b ∷ word) rest (h, hs) =
    rw (neq_false b comma h) (ap (prepend b) (split_word word rest hs))

split_last : (word : Bytes) → HasNoComma word → split_commas word ≡ word ∷ []
unfolding split_commas prepend
split_last [] h = refl
split_last (b ∷ word) (h, hs) = rw (neq_false b comma h) (ap (prepend b) (split_last word hs))

-- Words without commas that are joined by commas are read back, if there is one at least.
pub split-join :
    (word : Bytes) (words : List Bytes)
    → All HasNoComma (word ∷ words)
    → split_commas (join_commas (word ∷ words)) ≡ word ∷ words
unfolding join_commas
split-join word [] h = split_last word h.0
split-join word (next ∷ words) h =
    split_word word _ h.0 ∙ ap (λ ws. word ∷ ws) (split-join next words h.1)
