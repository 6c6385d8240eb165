-- ===== src/Inventory.antt =====
-- What accounts/inventory.py, customers/inventory.py and transactions/inventory.py have in common:
-- a module-level list, the cache, kept beside a CSV file. Each of them is an instance, given by a
-- `Codec`: how an entity is identified, written and read.
pub mod Csv
pub mod Fields
pub mod Lookup
pub mod Sync
use Csv.{Line, Row, write_row, read_rows}
use stream_house_c360_demo.Prelude.{
  ℕ, String, Bool, true, false, not, Option, none, some, List, [], ◌∷◌, ◌++◌, map, ◌==◌,
  if◌then◌else◌, length, keep,
}
use stream_house_c360_demo.Prelude.Effect.{Error, Result, ok, err, Action, invalid}

pub record Codec (A : Type 0) : Type 0 where
  -- the entity's UUID, which is a 128-bit number
  pub id_of : A → ℕ
  -- `_FIELDNAMES`
  pub fieldnames : List String
  -- `_customer_to_row` and the like; the values as the CSV writer renders them
  pub to_row : A → List (String × String)
  -- `_row_to_customer` and the like; `none` if validation raises
  pub of_row : Row → Option A

-- The cache, and the lines of the file.
pub record Store (A : Type 0) : Type 0 where
  pub cache : List A
  pub file : List Line

module _ {A : Type 0} (c : Codec A) where
  open c use {id_of, fieldnames, to_row, of_row}

  abbrev pub line : A → Line
  line a = write_row fieldnames (to_row a)

  -- `[_row_to_x(row) for row in reader]`
  unfoldable pub parse_rows : List Row → Option (List A)
  parse_rows [] = some []
  parse_rows (row ∷ rows) = elim (of_row row) [
    | none ↦ none
    | some a ↦ elim (parse_rows rows) [ none ↦ none | some more ↦ some (a ∷ more) ]
  ]

  -- A row that does not validate raises before the cache is assigned.
  unfoldable pub load : Action (Store A) (List A)
  unfolding parse_rows read_rows
  load s = elim (parse_rows (read_rows s.file)) [
    | none ↦ (err invalid, s)
    | some rows ↦ (ok rows, record s { cache = rows })
  ]

  -- the loop of `get_by_id`
  unfoldable pub find : ℕ → List A → Option A
  find id [] = none
  find id (a ∷ more) = if id_of a == id then some a else find id more

  unfoldable pub get_by_id : ℕ → Store A → Option A
  get_by_id id s = find id s.cache

  abbrev pub list_all : Store A → List A
  list_all s = s.cache

  unfoldable pub create : A → Store A → A × Store A
  create a s = (a, record { cache = s.cache ++ a ∷ []; file = s.file ++ line a ∷ [] })

  unfoldable pub rewrite_csv : Store A → Store A
  rewrite_csv s = record s { file = fieldnames ∷ map line s.cache }

  -- the loop of `update`: the first entity with the same id is replaced
  unfoldable pub replace : A → List A → List A
  replace a [] = []
  replace a (x ∷ xs) = if id_of x == id_of a then a ∷ xs else x ∷ replace a xs

  unfoldable pub update : A → Store A → A × Store A
  unfolding replace rewrite_csv
  update a s = (a, rewrite_csv (record s { cache = replace a s.cache }))

  abbrev pub others : ℕ → List A → List A
  others id = keep (λ a. not (id_of a == id))

  unfoldable pub delete_by_id : ℕ → Store A → Bool × Store A
  unfolding rewrite_csv
  delete_by_id id s =
      let rest = others id s.cache in
      if length rest == length s.cache
      then (false, record s { cache = rest })
      else (true, rewrite_csv (record s { cache = rest }))
