-- ===== src/Analytics/Totals.antt =====
-- analytics/aggregate.py: no row is lost or counted twice.
use stream_house_c360_demo.Prelude.{
  ℕ, zero, suc, ◌+◌, ◌≡◌, refl, ap, String, true, List, [], ◌∷◌, ◌++◌, map, arith, leb, str_eq,
  eq_iff, length, if◌then◌else◌, Bool-cases, inl, inr,
}
use stream_house_c360_demo.Inventory.Csv.{Row}
use stream_house_c360_demo.Analytics.{
  CategoryCount, label_of, bump, counter, comes_before, insert, sorted, counts, total, take, drop,
  by_country, country_top_n,
}

-- how many rows have the label
abbrev pub occurrences : String → List String → ℕ
occurrences label [] = 0
occurrences label (k ∷ more) =
    if str_eq k label then suc (occurrences label more) else occurrences label more

-- what a list of categories counts for the label
abbrev pub count_for : String → List CategoryCount → ℕ
count_for label [] = 0
count_for label ((k, n) ∷ more) =
    if str_eq k label then n + count_for label more else count_for label more

count_for-bump :
    (label k : String) (entries : List CategoryCount)
    → count_for label (bump k entries)
      ≡ (if str_eq k label then suc (count_for label entries) else count_for label entries)
unfolding bump
count_for-bump label k [] = ground arith
count_for-bump label k ((j, n) ∷ more) = ground (arith, eq_iff j k, count_for-bump label k more)

count_for-counter :
    (label : String) (labels : List String) (entries : List CategoryCount)
    → count_for label (counter labels entries) ≡ occurrences label labels + count_for label entries
unfolding counter
count_for-counter label [] entries = omega arith
count_for-counter label (k ∷ more) entries =
    ground (arith, count_for-counter label more (bump k entries), count_for-bump label k entries)

count_for-insert :
    (label : String) (a : CategoryCount) (entries : List CategoryCount)
    → count_for label (insert a entries) ≡ count_for label (a ∷ entries)
unfolding insert
count_for-insert label a [] = refl
count_for-insert label a (b ∷ more) = elim (Bool-cases (comes_before b a)) [
  | inl e ↦ rw e (ground (arith, count_for-insert label a more))
  | inr e ↦ rw e refl
]

count_for-sorted :
    (label : String) (entries : List CategoryCount)
    → count_for label (sorted entries) ≡ count_for label entries
unfolding sorted
count_for-sorted label [] = refl
count_for-sorted label (a ∷ more) =
    ground (arith, count_for-insert label a (sorted more), count_for-sorted label more)

total-bump :
    (k : String) (entries : List CategoryCount) → total (bump k entries) ≡ suc (total entries)
unfolding bump
total-bump k [] = omega arith
total-bump k (a ∷ more) = ground (arith, total-bump k more)

total-counter :
    (labels : List String) (entries : List CategoryCount)
    → total (counter labels entries) ≡ length labels + total entries
unfolding counter
total-counter [] entries = omega arith
total-counter (k ∷ more) entries =
    ground (arith, total-counter more (bump k entries), total-bump k entries)

total-insert :
    (a : CategoryCount) (entries : List CategoryCount)
    → total (insert a entries) ≡ a.1 + total entries
unfolding insert
total-insert a [] = refl
total-insert a (b ∷ more) = elim (Bool-cases (comes_before b a)) [
  | inl e ↦ rw e (ground (arith, total-insert a more))
  | inr e ↦ rw e refl
]

total-sorted : (entries : List CategoryCount) → total (sorted entries) ≡ total entries
unfolding sorted
total-sorted [] = refl
total-sorted (a ∷ more) = ground (arith, total-insert a (sorted more), total-sorted more)

length-map_row : (label : Row → String) (rows : List Row) → length (map label rows) ≡ length rows
length-map_row label [] = refl
length-map_row label (r ∷ rows) = ap suc (length-map_row label rows)

-- `_counts` counts each label as often as rows have it, and the counts add up to the number of rows.
pub counts-total :
    (rows : List Row) (field default label : String)
    → (count_for label (counts rows field default)
        ≡ occurrences label (map (label_of field default) rows))
      × (total (counts rows field default) ≡ length rows)
unfolding counts
counts-total rows field default label =
    let labels = map (label_of field default) rows in
    (
      ground (arith, count_for-sorted label (counter labels []), count_for-counter label labels []),
      ground (
        arith,
        total-sorted (counter labels []),
        total-counter labels [],
        length-map_row (label_of field default) rows,
      ),
    )

total-append : (l k : List CategoryCount) → total (l ++ k) ≡ total l + total k
total-append [] k = omega arith
total-append (a ∷ l) k = ground (arith, total-append l k)

total-take : (n : ℕ) (l : List CategoryCount) → total (take n l) + total (drop n l) ≡ total l
total-take zero l = omega arith
total-take (suc n) [] = refl
total-take (suc n) (a ∷ l) = ground (arith, total-take n l)

length-take :
    (n : ℕ) (l : List CategoryCount) → leb (length (take n l ++ ("Other", 0) ∷ [])) (suc n) ≡ true
length-take zero l = ground arith
length-take (suc n) [] = ground arith
length-take (suc n) (a ∷ l) = ground (arith, length-take n l)

length-snoc :
    (l : List CategoryCount) (a b : CategoryCount) → length (l ++ a ∷ []) ≡ length (l ++ b ∷ [])
length-snoc [] a b = refl
length-snoc (x ∷ l) a b = ap suc (length-snoc l a b)

-- The chart of countries has nine bars at most, and its counts add up to the number of rows.
pub by_country-total :
    (rows : List Row)
    → (total (by_country rows) ≡ length rows) × (leb (length (by_country rows)) 9 ≡ true)
unfolding by_country
by_country-total rows =
    let all = counts rows "country" "Unknown" in
    let whole = (counts-total rows "country" "Unknown" "").1 in
    let rest = total (drop country_top_n all) in
    (
      ground (
        arith,
        whole,
        total-append (take country_top_n all) (("Other", rest) ∷ []),
        total-take country_top_n all,
      ),
      ground (
        arith,
        length-take country_top_n all,
        length-snoc (take country_top_n all) ("Other", rest) ("Other", 0),
      ),
    )
