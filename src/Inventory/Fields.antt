-- ===== src/Inventory/Fields.antt =====
-- How pydantic takes a field from a cleaned row: `x: T`, `x: T = d` and `x: T | None = None`.
-- A parser of cell texts is an argument.
use stream_house_c360_demo.Prelude.{
  text_or_empty, arith, str_eq_ne, ◌≢◌, ◌≡◌, String, Option, none, some,
}
use stream_house_c360_demo.Inventory.Csv.{Row, column, clean}

infixl 5 ◌>>=◌
abbrev pub ◌>>=◌ {ℓ κ} : {A : Type ℓ} {B : Type κ} → Option A → (A → Option B) → Option B
none >>= f = none
some a >>= f = f a

module _ {A : Type 0} (parse : String → Option A) where
  -- an empty or missing cell is `None`, which does not validate
  abbrev pub not_null : Option String → Option A
  not_null v = clean v >>= parse

  abbrev pub nullable_cell : Option String → Option (Option A)
  nullable_cell v = elim (clean v) [ none ↦ some none | some t ↦ parse t >>= λ a. some (some a) ]

  unfoldable pub required : String → Row → Option A
  required name row = column name row >>= not_null

  -- the default stands for a column that the file does not have
  unfoldable pub defaulted : A → String → Row → Option A
  defaulted d name row = elim (column name row) [ none ↦ some d | some v ↦ not_null v ]

  unfoldable pub nullable : String → Row → Option (Option A)
  nullable name row = elim (column name row) [ none ↦ some none | some v ↦ nullable_cell v ]

-- `text(x) if x is not None else ""`
abbrev pub optional_text : {A : Type 0} → (A → String) → Option A → String
optional_text text none = ""
optional_text text (some a) = text a

module _ {A : Type 0} (parse : String → Option A) (name : String) (row : Row) where
  -- A cell with a text that is not empty is parsed.
  pub required_lem :
      {t : String} {a : A}
      → column name row ≡ some (some t)
      → t ≢ ""
      → parse t ≡ some a
      → required parse name row ≡ some a
  unfolding required
  required_lem {t} e h p = rw (e, str_eq_ne t "" h) p

  pub defaulted_lem :
      (d : A) {t : String} {a : A}
      → column name row ≡ some (some t)
      → t ≢ ""
      → parse t ≡ some a
      → defaulted parse d name row ≡ some a
  unfolding defaulted
  defaulted_lem d {t} e h p = rw (e, defaulted, not_null) (rw (str_eq_ne t "" h) p)

  -- A nullable value is read as it was written.
  pub nullable_lem :
      (text : A → String) (o : Option A)
      → column name row ≡ some (some (optional_text text o))
      → ((a : A) → text a ≢ "")
      → ((a : A) → parse (text a) ≡ some a)
      → nullable parse name row ≡ some o
  unfolding nullable
  nullable_lem text none e h law = rw (e, nullable)
  nullable_lem text (some a) e h law = ground (arith, str_eq_ne (text a) "" (h a), law a)

-- A text that may be missing is read back, an empty one as missing.
pub nullable_text_lem :
    (name : String) (row : Row) (o : Option String)
    → column name row ≡ some (some (text_or_empty o))
    → nullable some name row ≡ some (clean o)
unfolding nullable
nullable_text_lem name row none e = rw (e, nullable)
nullable_text_lem name row (some t) e = ground arith
