-- ===== src/Analytics.antt =====
-- analytics/aggregate.py: the categories of a snapshot of profile rows and how often each occurs.
pub mod Totals
pub mod Providers
pub mod Clients
use Prim.Native.String.{compare}
use Prim.Native.Nat as Nat
use stream_house_c360_demo.Prelude.{
  ℕ, zero, suc, ◌+◌, String, Bool, true, false, ◌&&◌, ◌||◌, Option, none, some, List, [], ◌∷◌, ◌++◌,
  map, ltb, ◌==◌, str_eq, length, if◌then◌else◌,
}
use stream_house_c360_demo.Inventory.Csv.{Row, column, clean}

-- `CategoryCount`: label and count
abbrev pub CategoryCount : Type 0
CategoryCount = String × ℕ

-- `_COUNTRY_TOP_N`
abbrev pub country_top_n : ℕ
country_top_n = 8

abbrev or_default : String → Option String → String
or_default default none = default
or_default default (some label) = label

-- `str(r.get(field) or default)`, of a column of texts
unfoldable pub label_of : String → String → Row → String
label_of field default row = elim (column field row) [
  | none ↦ default
  | some v ↦ or_default default (clean v)
]

-- one more of a label, as a Counter counts it
unfoldable pub bump : String → List CategoryCount → List CategoryCount
bump label [] = (label, 1) ∷ []
bump label ((k, n) ∷ more) = if str_eq k label then (k, suc n) ∷ more else (k, n) ∷ bump label more

unfoldable pub counter : List String → List CategoryCount → List CategoryCount
counter [] counts = counts
counter (label ∷ labels) counts = counter labels (bump label counts)

-- the order of the key `(-count, label)`
abbrev pub comes_before : CategoryCount → CategoryCount → Bool
comes_before a b =
    ltb b.1 a.1 || (a.1 == b.1 && (elim (compare a.0 b.0) [ Nat.lt ↦ true | _ ↦ false ]))

unfoldable pub insert : CategoryCount → List CategoryCount → List CategoryCount
insert a [] = a ∷ []
insert a (b ∷ more) = if comes_before b a then b ∷ insert a more else a ∷ b ∷ more

-- `sorted(…, key=…)`
unfoldable pub sorted : List CategoryCount → List CategoryCount
sorted [] = []
sorted (a ∷ more) = insert a (sorted more)

-- `_counts`
unfoldable pub counts : List Row → String → String → List CategoryCount
counts rows field default = sorted (counter (map (label_of field default) rows) [])

-- `sum(c.count for c in …)`
abbrev pub total : List CategoryCount → ℕ
total [] = 0
total (a ∷ more) = a.1 + total more

abbrev pub take : ℕ → List CategoryCount → List CategoryCount
take zero l = []
take (suc n) [] = []
take (suc n) (a ∷ l) = a ∷ take n l

abbrev pub drop : ℕ → List CategoryCount → List CategoryCount
drop zero l = l
drop (suc n) [] = []
drop (suc n) (a ∷ l) = drop n l

-- The tail past the first `country_top_n` countries is one category.
unfoldable pub by_country : List Row → List CategoryCount
by_country rows =
    let all = counts rows "country" "Unknown" in
    if ltb country_top_n (length all)
    then take country_top_n all ++ ("Other", total (drop country_top_n all)) ∷ []
    else all
