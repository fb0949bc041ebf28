-- ===== src/Sdk/Collections.antt =====
-- cosmossdk.io/collections: typed views of a module's key-value store.
use veranatest.Prelude.{
  All, Bool, Bytes, Error, List, Listed, Option, Outcome, [], bytes_eq, err, false, if◌then◌else◌,
  none, ok, some, true, ◌∷◌, ◌≡◌, ◌≢◌,
}

-- `collections.Item[V]`. `content` is the value that the store holds, if it was ever set.
pub record Item (V : Type 0) : Type 1 where
  pub Store : Type 0
  pub content : Store → Option V
  pub get : Store → Outcome V
  pub set : Store → V → Outcome Store
  -- A read gives what is stored, and `ErrNotFound` exactly when nothing is stored. It may fail.
  pub get_ok : (s : Store) (v : V) → get s ≡ ok v → content s ≡ some v
  pub get_not_found : (s : Store) → get s ≡ err Error.not_found → content s ≡ none
  pub set_ok : (s t : Store) (v : V) → set s v ≡ ok t → content t ≡ some v

-- The callback of `Walk` over the pairs that the iterator yields; it answers whether to stop, and
-- updates the variable that it captures.
abbrev pub visit : {K V A : Type 0} → (K → V → A → Bool × A) → List (K × V) → A → A
visit f [] a = a
visit f ((k, v) ∷ rest) a = elim (f k v a).0 [
  | true ↦ (f k v a).1
  | false ↦ visit f rest (f k v a).1
]

-- No key stands twice.
abbrev pub Distinct : {K V : Type 0} → List (K × V) → Type 0
Distinct [] = Unit
Distinct ((k, v) ∷ rest) = All (λ (p : _ × _). p.0 ≢ k) rest × Distinct rest

-- `collections.Map[string, V]`. `lookup` is the value that the store holds at a key, and `reached`
-- the pairs that an iterator over the whole map yields before it ends or fails.
pub record Map (V : Type 0) : Type 1 where
  pub Store : Type 0
  pub lookup : Store → Bytes → Option V
  pub get : Store → Bytes → Outcome V
  pub has : Store → Bytes → Outcome Bool
  pub set : Store → Bytes → V → Outcome Store
  pub reached : Store → List (Bytes × V)
  -- `Walk` with a nil range: what the callback leaves, and the error.
  pub walk : (A : Type 0) → Store → (Bytes → V → A → Bool × A) → A → A × Outcome (Unit {0})
  pub get_ok : (s : Store) (k : Bytes) (v : V) → get s k ≡ ok v → lookup s k ≡ some v
  pub get_not_found : (s : Store) (k : Bytes) → get s k ≡ err Error.not_found → lookup s k ≡ none
  pub has_true : (s : Store) (k : Bytes) → has s k ≡ ok true → lookup s k ≢ none
  pub has_false : (s : Store) (k : Bytes) → has s k ≡ ok false → lookup s k ≡ none
  pub set_ok :
      (s t : Store) (k : Bytes) (v : V)
      → set s k v ≡ ok t
      → (j : Bytes) → lookup t j ≡ (if bytes_eq k j then some v else lookup s j)
  -- The iterator yields only pairs that are stored, each key once; the callback sees them in turn.
  pub reached_once : (s : Store) → Distinct (reached s)
  pub reached_sound :
      (s : Store) (k : Bytes) (v : V) → Listed (k, v) (reached s) → lookup s k ≡ some v
  pub walk_visits :
      (A : Type 0) (s : Store) (f : Bytes → V → A → Bool × A) (a : A)
      → (walk A s f a).0 ≡ visit f (reached s) a

-- The iterator reaches every pair of the store: no read or decoding failed on the way.
abbrev pub IsReadable : {V : Type 0} (m : Map V) → m.Store → Type 0
IsReadable {V} m s = (k : Bytes) (v : V) → m.lookup s k ≡ some v → Listed (k, v) (m.reached s)

-- `query.CollectionPaginate` of the SDK: the page of a map that a request asks for, each value
-- through a function.
pub record Pages {V : Type 0} (m : Map V) : Type 1 where
  pub PageRequest : Type 0
  pub PageResponse : Type 0
  pub collection_paginate :
      {T : Type 0}
      → m.Store
      → PageRequest
      → (Bytes → V → Outcome T)
      → Outcome (List T × PageResponse)
