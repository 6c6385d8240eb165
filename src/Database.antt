-- ===== src/Database.antt =====
-- db.py: the pool of connections, the transactions of `cursor`, `init_schema` and `seed_if_empty`.
-- What a statement does to the tables, and whether a commit succeeds, are arguments. A connection
-- that goes back to the pool with a transaction open is rolled back by psycopg2's pool.
pub mod Transactions
pub mod Schema
use Prim.Native.String.{◌++◌ as str_append}
use stream_house_c360_demo.Prelude.{
  ℕ, suc, ◌+◌, ◌-◌, String, Bool, true, false, Option, none, some, List, [], ◌∷◌, ltb,
  if◌then◌else◌, ◌==◌,
}
use stream_house_c360_demo.Prelude.Effect.{
  Error, Result, ok, err, Action, pure, raise, ◌>>=◌, ◌>>◌, unique_violation, integrity_error,
  runtime_error, pool_exhausted,
}

-- the tables as committed, and the connections that are out of the pool
pub record Pool (T : Type 0) : Type 0 where
  pub committed : T
  pub in_use : ℕ

-- `maxconn` of the pool
abbrev pub max_connections : ℕ
max_connections = 10

-- The url with an `sslmode`; `◌ in url` of the standard library is an argument.
unfoldable pub pool_url : (String → String → Bool) → String → String
pool_url occurs_in url =
    if occurs_in "sslmode=" url
    then url
    else str_append url (str_append (if occurs_in "?" url then "&" else "?") "sslmode=prefer")

-- The statements of `_ensure_cdc_table`.
pub record Publication (T : Type 0) : Type 0 where
  pub exists_publication : Action T Bool
  pub create_publication : Action T (Unit {0})
  pub has_table : String → Action T Bool
  pub add_table : String → Action T (Unit {0})

abbrev unless_there : {T : Type 0} → Bool → Action T (Unit {0}) → Action T (Unit {0})
unless_there true m = pure tt
unless_there false m = m

-- `_ensure_cdc_table`
unfoldable pub ensure_cdc_table : {T : Type 0} → Publication T → String → Action T (Unit {0})
ensure_cdc_table p table = do
  there ← p.exists_publication
  unless_there there p.create_publication
  listed ← p.has_table table
  unless_there listed (p.add_table table)

-- The configured url, and the errors of opening a connection and of a commit, if they fail.
module _ {T : Type 0} (database_url : Option String) (fault_of_connect : Pool T → Option Error)
    (fault_of_commit : T → Option Error) where
  abbrev taken : Option Error → Action (Pool T) (Unit {0})
  taken none s = (ok tt, record s { in_use = suc s.in_use })
  taken (some fault) s = (err fault, s)

  unfoldable pub get_conn : Action (Pool T) (Unit {0})
  get_conn s = elim database_url [
    | none ↦ (err runtime_error, s)
    | some url ↦
        if ltb s.in_use max_connections
        then taken (fault_of_connect s) s
        else (err pool_exhausted, s)
  ]

  unfoldable pub put_conn : Pool T → Pool T
  put_conn s = record s { in_use = s.in_use - 1 }

  -- the end of a transaction with these tables, committed or, by an error, rolled back
  abbrev pub commit_tables : {A : Type 0} → A → T → Action (Pool T) A
  commit_tables a tables s = elim (fault_of_commit tables) [
    | none ↦ (ok a, record s { committed = tables })
    | some fault ↦ (err fault, s)
  ]

  abbrev pub end_cursor : {A : Type 0} → Bool → Result A → T → Action (Pool T) A
  end_cursor true (ok a) tables s = commit_tables a tables s
  end_cursor false (ok a) tables s = (ok a, s)
  end_cursor commit (err e) tables s = (err e, s)

  -- what runs on a connection, and gives it back however it ends
  abbrev pub on_conn : {A : Type 0} → Action (Pool T) A → Action (Pool T) A
  on_conn m = get_conn >> λ s. let (r, s') = m s in (r, put_conn s')

  -- the statements of a transaction, and its end
  abbrev pub transaction : {A : Type 0} → Bool → Action T A → Action (Pool T) A
  transaction commit body s = let (r, tables) = body s.committed in end_cursor commit r tables s

  -- `with db.cursor(commit=…) as cur: body`
  unfoldable pub cursor : {A : Type 0} → Bool → Action T A → Action (Pool T) A
  cursor commit body = on_conn (transaction commit body)

  unfoldable pub run_all : List (Action T (Unit {0})) → Action T (Unit {0})
  run_all [] = pure tt
  run_all (statement ∷ more) = do statement; run_all more

  abbrev pub add_to_cdc : Publication T → Option String → Action T (Unit {0})
  add_to_cdc p none = pure tt
  add_to_cdc p (some table) = ensure_cdc_table p table

  unfoldable pub init_schema :
      Publication T → List (Action T (Unit {0})) → Option String → Action (Pool T) (Unit {0})
  init_schema p statements cdc_table =
      on_conn (transaction true (run_all statements >> add_to_cdc p cdc_table))

  -- an integrity error is logged, and the seed skipped
  abbrev pub skip_integrity : Result (Unit {0}) → Result (Unit {0})
  skip_integrity (err integrity_error) = ok tt
  skip_integrity (err unique_violation) = ok tt
  skip_integrity r = r

  module _ {A : Type 0} (count : Action T ℕ) (insert : A → Action T (Unit {0})) where
    unfoldable pub insert_all : List A → Action T (Unit {0})
    insert_all [] = pure tt
    insert_all (a ∷ more) = do insert a; insert_all more

    -- after the count: nothing if there are rows, and else all inserts and the commit
    abbrev pub seed_rows : List A → Result ℕ → T → Action (Pool T) (Unit {0})
    seed_rows rows (err e) tables s = (err e, s)
    seed_rows rows (ok n) tables s =
        if ltb 0 n
        then (ok tt, s)
        else (let (r, seeded) = insert_all rows tables in end_cursor true r seeded s)

    abbrev pub seed_empty : List A → Action (Pool T) (Unit {0})
    seed_empty rows s =
        let (n, tables) = count s.committed in
        let (r, s') = seed_rows rows n tables s in (skip_integrity r, s')

    unfoldable pub seed_if_empty : List A → Action (Pool T) (Unit {0})
    seed_if_empty [] = pure tt
    seed_if_empty (a ∷ more) = on_conn (seed_empty (a ∷ more))
