-- ===== src/DbSink.antt =====
-- What accounts/db_sink.py, customers/db_sink.py and transactions/db_sink.py have in common: SQL
-- statements run in the transactions of db.py. The three modules are instances, given by a `Table`.
-- PostgreSQL is a `Server`: what a statement with its parameters does to tables `T`, and the rows
-- `R` it answers.
pub mod Outcomes
use Prim.Native.String.{◌++◌ as str_append}
use stream_house_c360_demo.Prelude.{
  ℕ, zero, suc, String, Bool, true, false, Option, none, some, List, [], ◌∷◌, ◌++◌, map, ltb,
  if◌then◌else◌,
}
use stream_house_c360_demo.Prelude.Effect.{
  Error, Result, ok, err, Action, pure, raise, catch, ◌>>=◌, ◌>>◌, http, unique_violation,
  type_error, invalid,
}
use stream_house_c360_demo.Scalars.{Float, Date, Datetime}
use stream_house_c360_demo.Database.{Pool, Publication, cursor, init_schema, seed_if_empty}
use stream_house_c360_demo.Dispatch.{Sink}

-- a parameter of a statement
pub data Param : Type 0 where
  text : String → Param
  number : Float → Param
  day : Date → Param
  time : Datetime → Param
  null : Param

abbrev pub or_null : {A : Type 0} → (A → Param) → Option A → Param
or_null show none = null
or_null show (some a) = show a

-- the fields of an update that are not `None`
abbrev pub set_field : {A : Type 0} → (A → Param) → String → Option A → List (String × Param)
set_field show column none = []
set_field show column (some a) = (column, show a) ∷ []

pub record Reply (R : Type 0) : Type 0 where
  pub rows : List R
  pub rowcount : ℕ

pub record Server (T R : Type 0) : Type 0 where
  pub execute : String → List Param → Action T (Reply R)
  pub execute_batch : String → List (List Param) → Action T (Unit {0})
  pub count : String → Action T ℕ
  pub publication : Publication T

-- An entity's table: its name, its columns in order, its key, and the order of `list_all`.
pub record Table (A : Type 0) : Type 0 where
  pub name : String
  pub columns : List String
  pub id_column : String
  pub order_column : String
  pub insert_params : A → List Param

-- `", ".join(xs)`
unfoldable pub join : List String → String
join [] = ""
join (x ∷ []) = x
join (x ∷ y ∷ more) = let rest = join (y ∷ more) in str_append x (str_append ", " rest)

abbrev pub concat : List String → String
concat [] = ""
concat (s ∷ more) = str_append s (concat more)

-- what is made of an action's result, once its transaction has ended
abbrev pub and_then : {S B C : Type 0} → Action S B → (B → Result C) → Action S C
and_then m f s = let (r, s') = m s in (elim r [ ok b ↦ f b | err e ↦ err e ], s')

-- `except UniqueViolation: raise HTTPException(409, detail)`
abbrev pub conflict : {B : Type 0} → String → Result B → Result B
conflict detail (err unique_violation) = err (http 409 detail)
conflict detail r = r

module _ {A : Type 0} (table : Table A) where
  abbrev placeholders : String
  placeholders = join (map (λ c. "%s") table.columns)

  abbrev pub insert_sql : String → String
  insert_sql ending = concat (
      "INSERT INTO "
      ∷ table.name
      ∷ " ("
      ∷ join table.columns
      ∷ ") VALUES ("
      ∷ placeholders
      ∷ ")"
      ∷ ending
      ∷ [])

  -- `_SEED_SQL` and `_INSERT_RETURNING_SQL`
  unfoldable pub seed_sql : String
  seed_sql = insert_sql (concat (" ON CONFLICT (" ∷ table.id_column ∷ ") DO NOTHING" ∷ []))

  unfoldable pub insert_returning_sql : String
  insert_returning_sql = insert_sql " RETURNING *"

  unfoldable pub select_sql : String
  select_sql = concat ("SELECT * FROM " ∷ table.name ∷ [])

  unfoldable pub where_sql : String → String
  where_sql column = concat (select_sql ∷ " WHERE " ∷ column ∷ " = %s" ∷ [])

  unfoldable pub order_sql : String
  order_sql = concat (" ORDER BY " ∷ table.order_column ∷ " DESC" ∷ [])

  unfoldable pub update_sql : List (String × Param) → String
  update_sql fields = concat (
      "UPDATE "
      ∷ table.name
      ∷ " SET "
      ∷ join (map (λ f. str_append f.0 " = %s") fields)
      ∷ " WHERE "
      ∷ table.id_column
      ∷ " = %s RETURNING *"
      ∷ [])

  unfoldable pub delete_sql : String
  delete_sql = concat ("DELETE FROM " ∷ table.name ∷ " WHERE " ∷ table.id_column ∷ " = %s" ∷ [])

  -- `read` is `Customer(**row)`, or `none` if the row does not validate; `uuid_text` is `str`.
  module _ {T R : Type 0} (server : Server T R) (read : R → Option A) (uuid_text : ℕ → String)
      (database_url : Option String) (fault_of_connect : Pool T → Option Error)
      (fault_of_commit : T → Option Error) where
    -- the statement of a cursor
    unfoldable pub query : Bool → String → List Param → Action (Pool T) (Reply R)
    query commit sql params =
        cursor database_url fault_of_connect fault_of_commit commit (server.execute sql params)

    abbrev pub fetch_one : Reply R → Option R
    fetch_one reply = elim reply.rows [ [] ↦ none | row ∷ more ↦ some row ]

    -- `Customer(**row)`
    abbrev pub entity_of : R → Result A
    entity_of row = elim (read row) [ none ↦ err invalid | some a ↦ ok a ]

    abbrev pub entity : Option R → Result A
    entity none = err type_error
    entity (some row) = entity_of row

    abbrev pub wrapped : Result A → Result (Option A)
    wrapped (ok a) = ok (some a)
    wrapped (err e) = err e

    -- `Customer(**row) if row else None`
    abbrev pub entity_if_row : Option R → Result (Option A)
    entity_if_row none = ok none
    entity_if_row (some row) = wrapped (entity_of row)

    abbrev pub with_first : A → Result (List A) → Result (List A)
    with_first a (ok more) = ok (a ∷ more)
    with_first a (err e) = err e

    abbrev pub entities : List R → Result (List A)
    entities [] = ok []
    entities (row ∷ more) =
        let rest = entities more in
        elim (entity_of row) [ ok a ↦ with_first a rest | err e ↦ err e ]

    unfoldable pub insert_returning : A → Action (Pool T) A
    insert_returning a =
        and_then (query true insert_returning_sql (table.insert_params a))
          (λ reply. entity (fetch_one reply))

    unfoldable pub create_or_conflict : String → A → Action (Pool T) A
    create_or_conflict detail a s = let (r, s') = insert_returning a s in (conflict detail r, s')

    unfoldable pub get_by_id : ℕ → Action (Pool T) (Option A)
    get_by_id id =
        and_then (query false (where_sql table.id_column) (text (uuid_text id) ∷ []))
          (λ reply. entity_if_row (fetch_one reply))

    unfoldable pub select_all : String → List Param → Action (Pool T) (List A)
    select_all sql params = and_then (query false sql params) (λ reply. entities reply.rows)

    unfoldable pub list_all : Action (Pool T) (List A)
    list_all = select_all (str_append select_sql order_sql) []

    -- an update; without a field it only reads
    unfoldable pub update : ℕ → List (String × Param) → Action (Pool T) (Option A)
    update id [] = get_by_id id
    update id (f ∷ fields) =
        and_then
          (query true (update_sql (f ∷ fields))
            (map (λ g. g.1) (f ∷ fields) ++ text (uuid_text id) ∷ []))
          (λ reply. entity_if_row (fetch_one reply))

    unfoldable pub delete_by_id : ℕ → Action (Pool T) Bool
    delete_by_id id =
        and_then (query true delete_sql (text (uuid_text id) ∷ []))
          (λ reply. ok (ltb 0 reply.rowcount))

    -- `init_db`, with the texts of `_DDL_STATEMENTS`
    unfoldable pub init_db : List String → Action (Pool T) (Unit {0})
    init_db statements =
        init_schema database_url fault_of_connect fault_of_commit server.publication
          (map (λ sql. server.execute sql [] >> pure tt) statements) (some table.name)

    unfoldable pub seed_from_csv : List A → Action (Pool T) (Unit {0})
    seed_from_csv rows =
        seed_if_empty database_url fault_of_connect fault_of_commit (server.count table.name)
          (λ a. server.execute seed_sql (table.insert_params a) >> pure tt) rows
