-- ===== src/Sdk/Instances.antt =====
-- Concrete collections that meet the interfaces: an optional value, and a list of pairs in which the
-- newest pair of a key counts.
pub mod Numbers
pub mod Groups
pub mod Stakings
pub mod Ledgers
pub mod Networks
pub mod Naming
use veranatest.Prelude.{
  All, Bool, Bool-cases, Bytes, Error, List, Listed, Option, Outcome, [], ap, arith, bytes_eq,
  bytes_eq_iff, bytes_eq_refl, err, false, if◌then◌else◌, inl, inr, none, ok, refl, some, sym, true,
  ◌∙◌, ◌∷◌, ◌≡◌, ◌≢◌, ◌⊎◌,
}
use veranatest.Sdk.Collections.{Distinct, IsReadable, Item, Map, visit}

unfoldable pub item_get : {V : Type 0} → Option V → Outcome V
item_get none = err Error.not_found
item_get (some v) = ok v

pub item_get_ok : {V : Type 0} (s : Option V) (v : V) → item_get s ≡ ok v → s ≡ some v
unfolding item_get
item_get_ok none v h = cc
item_get_ok (some w) v h = cc

pub item_get_not_found : {V : Type 0} (s : Option V) → item_get s ≡ err Error.not_found → s ≡ none
unfolding item_get
item_get_not_found none h = refl
item_get_not_found (some w) h = cc

pub item_set_ok : {V : Type 0} (s t : Option V) (v : V) → ok (some v) ≡ ok t → t ≡ some v
item_set_ok s t v h = cc

abbrev pub option_item : (V : Type 0) → Item V
option_item V = record {
  Store = Option V;
  content = λ s. s;
  get = item_get;
  set = λ s v. ok (some v);
  get_ok = item_get_ok;
  get_not_found = item_get_not_found;
  set_ok = item_set_ok;
}

module _ {V : Type 0} where
  unfoldable pub find_value : List (Bytes × V) → Bytes → Option V
  find_value [] key = none
  find_value ((k, v) ∷ rest) key = if bytes_eq k key then some v else find_value rest key

  keep : Bool → Bytes × V → List (Bytes × V) → List (Bytes × V)
  keep true p l = l
  keep false p l = p ∷ l

  without : Bytes → List (Bytes × V) → List (Bytes × V)
  unfolding keep
  without key [] = []
  without key ((k, v) ∷ rest) = keep (bytes_eq k key) (k, v) (without key rest)

  unfoldable pub newest : List (Bytes × V) → List (Bytes × V)
  unfolding without
  newest [] = []
  newest ((k, v) ∷ rest) = (k, v) ∷ without k (newest rest)

  unfoldable pub is_some : Option V → Bool
  is_some none = false
  is_some (some v) = true

  pub is_some-true : (o : Option V) → ok (is_some o) ≡ ok true → o ≢ none
  unfolding is_some
  is_some-true none h = cc
  is_some-true (some v) h = λ e. cc

  pub is_some-false : (o : Option V) → ok (is_some o) ≡ ok false → o ≡ none
  unfolding is_some
  is_some-false none h = refl
  is_some-false (some v) h = cc

  Listed-keep :
      (b : Bool) (p x : Bytes × V) (l : List (Bytes × V))
      → Listed x (keep b p l)
      → ((b ≡ false) × (x ≡ p)) ⊎ Listed x l
  unfolding keep
  Listed-keep true p x l h = inr h
  Listed-keep false p x l (inl e) = inl (refl, e)
  Listed-keep false p x l (inr h) = inr h

  keep-tail :
      (b : Bool) (p x : Bytes × V) (l : List (Bytes × V)) → Listed x l → Listed x (keep b p l)
  unfolding keep
  keep-tail true p x l h = h
  keep-tail false p x l h = inr h

  Listed-without :
      (key : Bytes) (l : List (Bytes × V)) (k : Bytes) (v : V)
      → Listed (k, v) (without key l)
      → Listed (k, v) l × (bytes_eq k key ≡ false)
  unfolding without
  Listed-without key [] k v h = absurd h
  Listed-without key ((j, w) ∷ rest) k v h =
      elim (Listed-keep (bytes_eq j key) (j, w) (k, v) (without key rest) h) [
        | inl (e, p) ↦ (inl p, ap (λ (q : Bytes × V). bytes_eq q.0 key) p ∙ e)
        | inr t ↦ let (l, n) = Listed-without key rest k v t in (inr l, n)
      ]

  without-Listed :
      (key : Bytes) (l : List (Bytes × V)) (k : Bytes) (v : V)
      → Listed (k, v) l
      → bytes_eq k key ≡ false
      → Listed (k, v) (without key l)
  unfolding without
  without-Listed key [] k v h n = absurd h
  without-Listed key ((j, w) ∷ rest) k v (inl p) n =
      rw (sym (ap (λ (q : Bytes × V). bytes_eq q.0 key) p) ∙ n, keep) (inl p)
  without-Listed key ((j, w) ∷ rest) k v (inr t) n =
      keep-tail (bytes_eq j key) (j, w) (k, v) (without key rest) (without-Listed key rest k v t n)

  pub newest_sound :
      (s : List (Bytes × V)) (k : Bytes) (v : V)
      → Listed (k, v) (newest s)
      → find_value s k ≡ some v
  unfolding find_value newest
  newest_sound [] k v h = absurd h
  newest_sound ((j, w) ∷ rest) k v (inl p) =
      ground (arith, ap (λ (q : Bytes × V). q.0) p, ap (λ (q : Bytes × V). q.1) p, bytes_eq_refl j)
  newest_sound ((j, w) ∷ rest) k v (inr t) =
      let (l, n) = Listed-without j (newest rest) k v t in
      ground (arith, newest_sound rest k v l, bytes_eq_iff j k, bytes_eq_refl k)

  pub newest_complete :
      (s : List (Bytes × V)) (k : Bytes) (v : V)
      → find_value s k ≡ some v
      → Listed (k, v) (newest s)
  unfolding find_value newest
  newest_complete [] k v h = ground arith
  newest_complete ((j, w) ∷ rest) k v h = elim (Bool-cases (bytes_eq j k)) [
    | inl e ↦ inl (ground (arith, bytes_eq_iff j k))
    | inr e ↦ inr (
        without-Listed j (newest rest) k v (newest_complete rest k v (ground arith))
          (ground (arith, bytes_eq_iff k j, bytes_eq_refl j, Bool-cases (bytes_eq k j))))
  ]

  absent-keep :
      (b : Bool) (p : Bytes × V) (k : Bytes) (l : List (Bytes × V))
      → (b ≡ false → p.0 ≢ k)
      → All (λ (q : Bytes × V). q.0 ≢ k) l
      → All (λ (q : Bytes × V). q.0 ≢ k) (keep b p l)
  unfolding keep
  absent-keep true p k l n h = h
  absent-keep false p k l n h = (n refl, h)

  absent-without :
      (key k : Bytes) (l : List (Bytes × V))
      → All (λ (q : Bytes × V). q.0 ≢ k) l
      → All (λ (q : Bytes × V). q.0 ≢ k) (without key l)
  unfolding without
  absent-without key k [] h = tt
  absent-without key k ((j, w) ∷ rest) h =
      absent-keep (bytes_eq j key) (j, w) k _ (λ e. h.0) (absent-without key k rest h.1)

  absent : (key : Bytes) (l : List (Bytes × V)) → All (λ (q : Bytes × V). q.0 ≢ key) (without key l)
  unfolding without
  absent key [] = tt
  absent key ((j, w) ∷ rest) =
      absent-keep (bytes_eq j key) (j, w) key _ (λ e p. ground (arith, bytes_eq_iff j key))
        (absent key rest)

  Distinct-keep :
      (b : Bool) (k : Bytes) (v : V) (l : List (Bytes × V))
      → All (λ (q : Bytes × V). q.0 ≢ k) l
      → Distinct l
      → Distinct (keep b (k, v) l)
  unfolding keep
  Distinct-keep true k v l n d = d
  Distinct-keep false k v l n d = (n, d)

  Distinct-without : (key : Bytes) (l : List (Bytes × V)) → Distinct l → Distinct (without key l)
  unfolding without
  Distinct-without key [] d = tt
  Distinct-without key ((j, w) ∷ rest) d =
      Distinct-keep (bytes_eq j key) j w (without key rest) (absent-without key j rest d.0)
        (Distinct-without key rest d.1)

  pub newest-Distinct : (s : List (Bytes × V)) → Distinct (newest s)
  unfolding newest
  newest-Distinct [] = tt
  newest-Distinct ((j, w) ∷ rest) =
      (absent j (newest rest), Distinct-without j (newest rest) (newest-Distinct rest))

  pub cons_lem :
      (s t : List (Bytes × V)) (k : Bytes) (v : V)
      → ok ((k, v) ∷ s) ≡ ok t
      → (j : Bytes) → find_value t j ≡ (if bytes_eq k j then some v else find_value s j)
  unfolding find_value
  cons_lem s t k v h j = let e : (k, v) ∷ s ≡ t = cc in rw (← e)

abbrev pub list_map : (V : Type 0) → Map V
list_map V = record {
  Store = List (Bytes × V);
  lookup = find_value;
  get = λ s k. item_get (find_value s k);
  has = λ s k. ok (is_some (find_value s k));
  set = λ s k v. ok ((k, v) ∷ s);
  reached = newest;
  walk = λ A s f a. (visit f (newest s) a, ok tt);
  get_ok = λ s k v h. item_get_ok (find_value s k) v h;
  get_not_found = λ s k h. item_get_not_found (find_value s k) h;
  has_true = λ s k h. is_some-true (find_value s k) h;
  has_false = λ s k h. is_some-false (find_value s k) h;
  set_ok = cons_lem;
  reached_sound = newest_sound;
  reached_once = newest-Distinct;
  walk_visits = λ A s f a. refl;
}

pub list_map-IsReadable : (V : Type 0) (s : List (Bytes × V)) → IsReadable (list_map V) s
list_map-IsReadable V s k v h = newest_complete s k v h
