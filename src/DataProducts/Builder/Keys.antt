-- ===== src/DataProducts/Builder/Keys.antt =====
-- Which keys a list has, through the dictionaries and sorts of the builder.
use stream_house_c360_demo.Prelude.{
  String, ◌≡◌, refl, Bool, true, false, ◌||◌, some, List, [], ◌∷◌, ◌++◌, map, arith, str_eq,
  eq_refl, eq_iff, keep, Bool-cases, inl, inr,
}
use stream_house_c360_demo.DataProducts.Builder.{get, setdefault, insert_by, sorted_by, comes_after}

module _ {ℓ} {A : Type ℓ} (key : A → String) where
  abbrev pub has_key : String → List A → Bool
  has_key s [] = false
  has_key s (a ∷ more) = str_eq (key a) s || has_key s more

  pub has_key-append :
      (s : String) (xs ys : List A) → has_key s (xs ++ ys) ≡ (has_key s xs || has_key s ys)
  has_key-append s [] ys = refl
  has_key-append s (x ∷ xs) ys = ground (arith, has_key-append s xs ys)

  has_key-insert_by :
      (order : A → String) (s : String) (a : A) (xs : List A)
      → has_key s (insert_by order a xs) ≡ has_key s (a ∷ xs)
  unfolding insert_by
  has_key-insert_by order s a [] = refl
  has_key-insert_by order s a (b ∷ xs) = elim (Bool-cases (comes_after (order a) (order b))) [
    | inl e ↦ rw e (ground (arith, has_key-insert_by order s a xs))
    | inr e ↦ rw e refl
  ]

  pub has_key-sorted_by :
      (order : A → String) (s : String) (xs : List A)
      → has_key s (sorted_by order xs) ≡ has_key s xs
  unfolding sorted_by
  has_key-sorted_by order s [] = refl
  has_key-sorted_by order s (a ∷ xs) =
      ground (arith, has_key-insert_by order s a (sorted_by order xs), has_key-sorted_by order s xs)

-- an element that passes a test keeps its key in the filtered list
pub has_key-keep {ℓ} :
    {A : Type ℓ} (key : A → String) (test : A → Bool) (k : String) (a : A) (xs : List (String × A))
    → get k xs ≡ some a
    → test a ≡ true
    → has_key key (key a) (keep test (map (λ n. n.1) xs)) ≡ true
unfolding get
has_key-keep key test k a [] e t = cc
has_key-keep key test k a ((j, b) ∷ xs) e t = elim (Bool-cases (str_eq j k)) [
  | inl same ↦ ground (arith, eq_refl (key a))
  | inr other ↦ ground (arith, has_key-keep key test k a xs)
]

abbrev pub has_entry {ℓ} : {A : Type ℓ} → String → List (String × A) → Bool
has_entry s entries = has_key (λ n. n.0) s entries

pub has_entry-setdefault {ℓ} :
    {A : Type ℓ} (s k : String) (a : A) (xs : List (String × A))
    → has_entry s (setdefault k a xs) ≡ (str_eq k s || has_entry s xs)
unfolding setdefault
has_entry-setdefault s k a [] = ground arith
has_entry-setdefault s k a ((j, b) ∷ xs) = ground (arith, eq_iff j k, has_entry-setdefault s k a xs)
