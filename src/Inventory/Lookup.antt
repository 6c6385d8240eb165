-- ===== src/Inventory/Lookup.antt =====
-- What `get_by_id` returns after each operation of an inventory, and the uniqueness of the ids.
use mathlib.Core.Path.{subst}
use stream_house_c360_demo.Prelude.{
  Bool-cases, ℕ, ◌<◌, ◌≡◌, ◌≢◌, refl, inl, inr, Bool, not, Option, none, some, List, [], ◌∷◌, ◌++◌,
  map, arith, ◌==◌, if◌then◌else◌, length, keep, length-keep, All, Option-cases, is_some,
}
use stream_house_c360_demo.Inventory.{
  Codec, Store, find, get_by_id, create, replace, update, others, delete_by_id,
}

module _ {A : Type 0} (c : Codec A) where
  open c use {id_of}

  -- no two entities of a list share an id
  abbrev pub IsFresh : ℕ → List A → Type 0
  IsFresh id = All (λ a. id_of a ≢ id)

  abbrev pub HasDistinctIds : List A → Type 0
  HasDistinctIds [] = Unit
  HasDistinctIds (a ∷ more) = IsFresh (id_of a) more × HasDistinctIds more

  -- What `update` writes at an id: the new entity, where there was one.
  abbrev pub put_over : A → Option A → Option A
  put_over a none = none
  put_over a (some old) = some a

  find-append :
      (id : ℕ) (a : A) (xs : List A)
      → find c id (xs ++ a ∷ [])
        ≡ elim (find c id xs) [ none ↦ (if id_of a == id then some a else none) | some x ↦ some x ]
  unfolding find
  find-append id a [] = ground arith
  find-append id a (x ∷ xs) = ground (arith, find-append id a xs)

  find-replace :
      (a : A) (id : ℕ) (xs : List A)
      → find c id (replace c a xs)
        ≡ (if id_of a == id then put_over a (find c id xs) else find c id xs)
  unfolding find replace
  find-replace a id [] = ground arith
  find-replace a id (x ∷ xs) = ground (arith, find-replace a id xs)

  ids-replace : (a : A) (xs : List A) → map id_of (replace c a xs) ≡ map id_of xs
  unfolding replace
  ids-replace a [] = refl
  ids-replace a (x ∷ xs) = ground (arith, ids-replace a xs)

  find-others :
      (id other : ℕ) (xs : List A)
      → find c other (others c id xs) ≡ (if id == other then none else find c other xs)
  unfolding find
  find-others id other [] = ground arith
  find-others id other (x ∷ xs) = ground (arith, find-others id other xs)

  -- the comparison of lengths in `delete_by_id` tells whether anything was removed
  length-others_of_none : (id : ℕ) (xs : List A) → find c id xs ≡ none → others c id xs ≡ xs
  unfolding find
  length-others_of_none id [] h = refl
  length-others_of_none id (x ∷ xs) h = ground (arith, length-others_of_none id xs)

  length-others_of_some :
      (id : ℕ) {a : A} (xs : List A) → find c id xs ≡ some a → length (others c id xs) < length xs
  unfolding find
  length-others_of_some id {a} [] h = ground arith
  length-others_of_some id {a} (x ∷ xs) h =
      ground (arith, length-others_of_some id {a = a} xs, length-keep (λ y. not (id_of y == id)) xs)

  -- Every lookup after `create`: what was found before, and else the new entity under its id.
  pub get_by_id-create :
      (a : A) (id : ℕ) (s : Store A)
      → get_by_id c id (create c a s).1 ≡ elim (get_by_id c id s) [
        | none ↦ (if id_of a == id then some a else none)
        | some x ↦ some x
      ]
  unfolding get_by_id create
  get_by_id-create a id s = find-append id a s.cache

  -- Every lookup after `update`: the entity with the same id is replaced if there is one, and no
  -- other changes; the ids of the cache, and their order, stay as they were.
  pub get_by_id-update :
      (a : A) (id : ℕ) (s : Store A)
      → (get_by_id c id (update c a s).1
          ≡ (if id_of a == id then put_over a (get_by_id c id s) else get_by_id c id s))
        × (map id_of (update c a s).1.cache ≡ map id_of s.cache)
  unfolding get_by_id update
  get_by_id-update a id s = (find-replace a id s.cache, ids-replace a s.cache)

  -- `delete_by_id` returns whether the id was there; a miss leaves cache and file as they were.
  -- Afterwards the id is not found, and every other id finds what it found before.
  pub get_by_id-delete_by_id :
      (id other : ℕ) (s : Store A)
      → ((delete_by_id c id s).0 ≡ is_some (get_by_id c id s))
        × ((if is_some (get_by_id c id s) then s else (delete_by_id c id s).1) ≡ s)
        × (get_by_id c other (delete_by_id c id s).1
            ≡ (if id == other then none else get_by_id c other s))
  unfolding get_by_id delete_by_id
  get_by_id-delete_by_id id other s = elim (Option-cases (find c id s.cache)) [
    | inl missing ↦ rw missing (
        rw (length-others_of_none id s.cache missing)
          (ground (arith, find-others id other s.cache)))
    | inr (a, found) ↦
        ground (arith, length-others_of_some id {a = a} s.cache found, find-others id other s.cache)
  ]

  IsFresh-append :
      (id : ℕ) (a : A) (xs : List A) → IsFresh id xs → id_of a ≢ id → IsFresh id (xs ++ a ∷ [])
  IsFresh-append id a [] h ne = (ne, tt)
  IsFresh-append id a (x ∷ xs) h ne = (h.0, IsFresh-append id a xs h.1 ne)

  IsFresh-replace : (id : ℕ) (a : A) (xs : List A) → IsFresh id xs → IsFresh id (replace c a xs)
  unfolding replace
  IsFresh-replace id a [] h = tt
  IsFresh-replace id a (x ∷ xs) h = ground (arith, IsFresh-replace id a xs h.1)

  IsFresh-keep : (id : ℕ) (p : A → Bool) (xs : List A) → IsFresh id xs → IsFresh id (keep p xs)
  IsFresh-keep id p [] h = tt
  IsFresh-keep id p (x ∷ xs) h = ground (arith, IsFresh-keep id p xs h.1)

  append-HasDistinctIds :
      (a : A) (xs : List A)
      → HasDistinctIds xs
      → find c (id_of a) xs ≡ none
      → HasDistinctIds (xs ++ a ∷ [])
  unfolding find
  append-HasDistinctIds a [] h e = (tt, tt)
  append-HasDistinctIds a (x ∷ xs) h e = (
    IsFresh-append (id_of x) a xs h.0 (ground arith),
    append-HasDistinctIds a xs h.1 (ground arith),
  )

  replace-HasDistinctIds :
      (a : A) (xs : List A) → HasDistinctIds xs → HasDistinctIds (replace c a xs)
  unfolding replace
  replace-HasDistinctIds a [] h = tt
  replace-HasDistinctIds a (x ∷ xs) h =
      ground (arith, replace-HasDistinctIds a xs h.1, IsFresh-replace (id_of x) a xs h.0)

  others-HasDistinctIds :
      (p : A → Bool) (xs : List A) → HasDistinctIds xs → HasDistinctIds (keep p xs)
  others-HasDistinctIds p [] h = tt
  others-HasDistinctIds p (x ∷ xs) h =
      ground (arith, others-HasDistinctIds p xs h.1, IsFresh-keep (id_of x) p xs h.0)

  -- If no two entities of an inventory share an id, none do after `create` of an unused id, `update`
  -- or `delete_by_id`. Of `load`, which takes what ids the file gives, this is not said.
  pub operations-HasDistinctIds :
      (a b : A) (id : ℕ) (s : Store A)
      → HasDistinctIds s.cache
      → get_by_id c (id_of a) s ≡ none
      → HasDistinctIds (create c a s).1.cache
        × HasDistinctIds (update c b s).1.cache
        × HasDistinctIds (delete_by_id c id s).1.cache
  unfolding get_by_id create update delete_by_id
  operations-HasDistinctIds a b id s h e = (
    append-HasDistinctIds a s.cache h e,
    replace-HasDistinctIds b s.cache h,
    ground (arith, others-HasDistinctIds (λ x. not (id_of x == id)) s.cache h),
  )

  -- A predicate of all the entities holds of the one that is found, and is kept by `replace`.
  pub All-find :
      (P : A → Type 0) (id : ℕ) (xs : List A) (a : A) → find c id xs ≡ some a → All P xs → P a
  unfolding find
  All-find P id [] a e h = absurd (ground arith)
  All-find P id (x ∷ xs) a e h = elim (Bool-cases (id_of x == id)) [
    | inl hit ↦ let same : x ≡ a = ground arith in subst P same h.0
    | inr miss ↦ All-find P id xs a (rw miss at e) h.1
  ]

  pub All-replace : (P : A → Type 0) (a : A) (xs : List A) → P a → All P xs → All P (replace c a xs)
  unfolding replace
  All-replace P a [] p h = h
  All-replace P a (x ∷ xs) p h = elim (Bool-cases (id_of x == id_of a)) [
    | inl hit ↦ rw hit (p, h.1)
    | inr miss ↦ rw miss (h.0, All-replace P a xs p h.1)
  ]

  -- An id that is found belongs to the entity that is found.
  pub find_id : (id : ℕ) (xs : List A) (a : A) → find c id xs ≡ some a → id_of a ≡ id
  unfolding find
  find_id id [] a h = absurd (ground arith)
  find_id id (x ∷ xs) a h = ground (arith, find_id id xs a)
