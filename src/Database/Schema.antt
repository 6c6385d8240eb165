-- ===== src/Database/Schema.antt =====
-- db.py: what a start-up's `init_schema` leaves in the database.
use mathlib.Core.Path.{subst}
use stream_house_c360_demo.Prelude.{
  sym, ap, ◌∙◌, String, ◌≡◌, Bool, true, Option, some, List, [], ◌∷◌, map, All, arith,
}
use stream_house_c360_demo.Prelude.Effect.{Error, ok, Action, ◌>>◌, ◌>>=◌}
use stream_house_c360_demo.Database.{
  Pool, Publication, ensure_cdc_table, unless_there, run_all, init_schema, get_conn, put_conn,
}

-- What PostgreSQL documents of the statements: of `CREATE ... IF NOT EXISTS`, by the names of what
-- they make, and of those on the publication. `has` and `lists` look into the tables.
pub record IsDdl {T N : Type 0} (p : Publication T) (make : N → Action T (Unit {0}))
    (has : N → T → Bool) (lists : String → T → Bool) : Type 0 where
  pub makes : (n : N) (t : T) → (make n t).0 ≡ ok tt → has n (make n t).1 ≡ true
  pub make_keeps : (m n : N) (t : T) → has n t ≡ true → has n (make m t).1 ≡ true
  pub exists_reads : (t : T) → (p.exists_publication t).1 ≡ t
  pub has_table_reads : (table : String) (t : T) → (p.has_table table t).1 ≡ t
  pub has_table_true :
      (table : String) (t : T) → (p.has_table table t).0 ≡ ok true → lists table t ≡ true
  pub create_keeps : (n : N) (t : T) → has n t ≡ true → has n (p.create_publication t).1 ≡ true
  pub adds :
      (table : String) (t : T)
      → (p.add_table table t).0 ≡ ok tt
      → lists table (p.add_table table t).1 ≡ true
  pub add_keeps :
      (table : String) (n : N) (t : T) → has n t ≡ true → has n (p.add_table table t).1 ≡ true

module _ {T N : Type 0} (database_url : Option String) (fault_of_connect : Pool T → Option Error)
    (fault_of_commit : T → Option Error) (p : Publication T) (make : N → Action T (Unit {0}))
    (has : N → T → Bool) (lists : String → T → Bool) (ddl : IsDdl p make has lists) where
  abbrev statements : List N → Action T (Unit {0})
  statements names = run_all database_url fault_of_connect fault_of_commit (map make names)

  then_ok :
      {B : Type 0} (m : Action T (Unit {0})) (k : Action T B) (t : T) {b : B}
      → ((m >> k) t).0 ≡ ok b
      → ((m t).0 ≡ ok tt) × ((m >> k) t ≡ k (m t).1)
  then_ok m k t h = ground arith

  statements-keep :
      (n : N) (names : List N) (t : T) → has n t ≡ true → has n (statements names t).1 ≡ true
  unfolding run_all
  statements-keep n [] t h = h
  statements-keep n (m ∷ names) t h =
      ground (arith, ddl.make_keeps m n t, statements-keep n names (make m t).1)

  statements-make :
      (names : List N) (t : T)
      → (statements names t).0 ≡ ok tt
      → All (λ n. has n (statements names t).1 ≡ true) names
  unfolding run_all
  statements-make [] t h = tt
  statements-make (m ∷ names) t h =
      let (made, rest) = then_ok (make m) (statements names) t h in
      subst (λ t'. All (λ n. has n t' ≡ true) (m ∷ names)) (sym (ap (λ r. r.1) rest))
        (
          statements-keep m names (make m t).1 (ddl.makes m t made),
          statements-make names (make m t).1 (sym (ap (λ r. r.0) rest) ∙ h),
        )

  abbrev listing : String → Action T (Unit {0})
  listing table = p.has_table table >>= λ listed. unless_there listed (p.add_table table)

  listing-keeps :
      (table : String) (n : N) (t : T) → has n t ≡ true → has n (listing table t).1 ≡ true
  listing-keeps table n t h =
      let e = ddl.has_table_reads table t in
      let k : has n (p.has_table table t).1 ≡ true = rw e h in
      ground (arith, ddl.add_keeps table n (p.has_table table t).1 k)

  listing-lists :
      (table : String) (t : T)
      → (listing table t).0 ≡ ok tt
      → lists table (listing table t).1 ≡ true
  listing-lists table t h = ground (
    arith,
    ap (lists table) (ddl.has_table_reads table t),
    ddl.has_table_true table t,
    ddl.adds table (p.has_table table t).1,
  )

  ensure-keeps :
      (table : String) (n : N) (t : T)
      → has n t ≡ true
      → has n (ensure_cdc_table p table t).1 ≡ true
  unfolding ensure_cdc_table
  ensure-keeps table n t h =
      let t1 = (p.exists_publication t).1 in
      let k : has n t1 ≡ true = rw (ddl.exists_reads t) h in
      ground (
        arith,
        k,
        ddl.create_keeps n t1 k,
        listing-keeps table n t1 k,
        listing-keeps table n (p.create_publication t1).1,
      )

  ensure-lists :
      (table : String) (t : T)
      → (ensure_cdc_table p table t).0 ≡ ok tt
      → lists table (ensure_cdc_table p table t).1 ≡ true
  unfolding ensure_cdc_table
  ensure-lists table t h =
      let t1 = (p.exists_publication t).1 in
      ground (arith, listing-lists table t1, listing-lists table (p.create_publication t1).1)

  All-weaken :
      {P Q : N → Type 0} (names : List N) → ((n : N) → P n → Q n) → All P names → All Q names
  All-weaken [] f h = tt
  All-weaken (n ∷ names) f h = (f n h.0, All-weaken names f h.1)

  abbrev body : List N → String → Action T (Unit {0})
  body names table = statements names >> ensure_cdc_table p table

  body-makes :
      (names : List N) (table : String) (t : T)
      → (body names table t).0 ≡ ok tt
      → All (λ n. has n (body names table t).1 ≡ true) names
        × (lists table (body names table t).1 ≡ true)
  body-makes names table t h =
      let (made, rest) = then_ok (statements names) (ensure_cdc_table p table) t h in
      let t1 = (statements names t).1 in
      subst (λ t'. All (λ n. has n t' ≡ true) names × (lists table t' ≡ true))
        (sym (ap (λ r. r.1) rest))
        (
          All-weaken names (λ n. ensure-keeps table n t1) (statements-make names t made),
          ensure-lists table t1 (sym (ap (λ r. r.0) rest) ∙ h),
        )

  abbrev initialised : List N → String → Action (Pool T) (Unit {0})
  initialised names table =
      init_schema database_url fault_of_connect fault_of_commit p (map make names) (some table)

  -- a return is that of all statements, and the tables that they leave are committed
  initialised-ok :
      (names : List N) (table : String) (s : Pool T)
      → (initialised names table s).0 ≡ ok tt
      → ((body names table s.committed).0 ≡ ok tt)
        × ((initialised names table s).1.committed ≡ (body names table s.committed).1)
  unfolding init_schema get_conn put_conn
  initialised-ok names table s h = ground arith

  -- If `init_schema` returns, all that its statements make is there in the committed tables, and the
  -- publication lists the table. The statements are taken to do what PostgreSQL documents of them.
  pub init_schema-makes :
      (names : List N) (table : String) (s : Pool T)
      → (init_schema database_url fault_of_connect fault_of_commit p
          (map make names)
          (some table)
          s).0
        ≡ ok tt
      → let s' =
          (init_schema database_url fault_of_connect fault_of_commit p
            (map make names)
            (some table)
            s).1 in
        All (λ n. has n s'.committed ≡ true) names × (lists table s'.committed ≡ true)
  init_schema-makes names table s h =
      let (returned, same) = initialised-ok names table s h in
      subst (λ t'. All (λ n. has n t' ≡ true) names × (lists table t' ≡ true)) (sym same)
        (body-makes names table s.committed returned)
