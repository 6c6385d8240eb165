-- ===== src/Tests/Tables.antt =====
-- Transactions on a database whose tables are one list of numbers, and a schema on one of names.
use stream_house_c360_demo.Prelude.{
  if◌then◌else◌, refl, arith, Bool, ◌||◌, map, All, str_eq, eq_refl, ℕ, ◌≡◌, ◌⊎◌, String, true,
  false, Option, none, some, List, [], ◌∷◌, length, ◌==◌,
}
use stream_house_c360_demo.Prelude.Effect.{
  Error, Result, ok, err, Action, pure, raise, ◌>>◌, integrity_error, sql,
}
use stream_house_c360_demo.Database.{
  Pool, Publication, cursor, init_schema, seed_if_empty, run_all, get_conn, ensure_cdc_table,
  insert_all,
}
use stream_house_c360_demo.Database.Schema.{IsDdl, init_schema-makes}
use stream_house_c360_demo.Database.Transactions.{Ends, cursor-Ends, seed_if_empty-IsAtomic}

abbrev Rows : Type 0
Rows = List ℕ

abbrev url : Option String
url = some "postgresql://db/c360"

abbrev connect : Pool Rows → Option Error
connect s = none

abbrev commit : Rows → Option Error
commit rows = none

abbrev pool : Pool Rows
pool = record { committed = 1 ∷ []; in_use = 2 }

abbrev insert : ℕ → Action Rows (Unit {0})
insert n rows = if n == 0 then (err integrity_error, rows) else (ok tt, n ∷ rows)

-- a row is written, and the next statement fails
abbrev body : Action Rows (Unit {0})
body = insert 5 >> raise (sql 7)

cursor-Ends_example :
    Ends url connect commit true (5 ∷ 1 ∷ []) pool (cursor url connect commit true body pool)
cursor-Ends_example = cursor-Ends url connect commit true body pool

-- tables by number, and the names that a publication lists
abbrev Catalog : Type 0
Catalog = List ℕ × List String

abbrev has : ℕ → Catalog → Bool
has n (numbers, names) = is_in n numbers
  where
    is_in : ℕ → List ℕ → Bool
    is_in n [] = false
    is_in n (m ∷ more) = m == n || is_in n more

abbrev lists : String → Catalog → Bool
lists table (numbers, names) = is_listed table names
  where
    is_listed : String → List String → Bool
    is_listed table [] = false
    is_listed table (name ∷ more) = str_eq name table || is_listed table more

abbrev make : ℕ → Action Catalog (Unit {0})
make n (numbers, names) = (ok tt, (n ∷ numbers, names))

abbrev publication : Publication Catalog
publication = record {
  exists_publication = λ t. (ok true, t);
  create_publication = pure tt;
  has_table = λ table t. (ok (lists table t), t);
  add_table = λ table t. (ok tt, (t.0, table ∷ t.1));
}

ddl : IsDdl publication make has lists
ddl = record {
  makes = λ n t h. ground arith;
  make_keeps = λ m n t h. ground arith;
  exists_reads = λ t. refl;
  has_table_reads = λ table t. refl;
  has_table_true = λ table t h. ground arith;
  create_keeps = λ n t h. h;
  adds = λ table t h. ground (arith, eq_refl table);
  add_keeps = λ table n t h. h;
}

abbrev no_fault_of_connect : Pool Catalog → Option Error
no_fault_of_connect s = none

abbrev no_fault_of_commit : Catalog → Option Error
no_fault_of_commit t = none

abbrev empty_catalog : Pool Catalog
empty_catalog = record { committed = ([], []); in_use = 2 }

abbrev initialised : Result (Unit {0}) × Pool Catalog
initialised =
    init_schema url no_fault_of_connect no_fault_of_commit publication (map make (3 ∷ 4 ∷ []))
      (some "accounts") empty_catalog

returned : initialised.0 ≡ ok tt
unfolding init_schema run_all ensure_cdc_table get_conn
returned = refl

init_schema-makes_example :
    All (λ n. has n initialised.1.committed ≡ true) (3 ∷ 4 ∷ [])
    × (lists "accounts" initialised.1.committed ≡ true)
init_schema-makes_example =
    init_schema-makes url no_fault_of_connect no_fault_of_commit publication make has lists ddl
      (3 ∷ 4 ∷ []) "accounts" empty_catalog returned

abbrev count : Action Rows ℕ
count rows = (ok (length rows), rows)

abbrev blank : Pool Rows
blank = record { committed = []; in_use = 2 }

abbrev seed : List ℕ → Result (Unit {0}) × Pool Rows
seed rows = seed_if_empty url connect commit count insert rows blank

-- the second insert of the seed violates a key
seed_if_empty-IsAtomic_example :
    let seeded = insert_all url connect commit count insert (5 ∷ 0 ∷ []) [] in
    ((seed (5 ∷ 0 ∷ [])).1.in_use ≡ 2)
    × (((seed (5 ∷ 0 ∷ [])).1.committed ≡ [])
        ⊎ (((count []).0 ≡ ok 0)
            × (seeded.0 ≡ ok tt)
            × ((seed (5 ∷ 0 ∷ [])).0 ≡ ok tt)
            × ((seed (5 ∷ 0 ∷ [])).1.committed ≡ seeded.1)))
seed_if_empty-IsAtomic_example =
    seed_if_empty-IsAtomic url connect commit count insert (5 ∷ 0 ∷ []) blank
