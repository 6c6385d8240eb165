-- ===== src/DbSink/Outcomes.antt =====
-- What the operations of a sink leave behind, whatever PostgreSQL answers.
use stream_house_c360_demo.Prelude.{
  ◌-◌, ℕ, suc, String, ◌≡◌, ◌⊎◌, ap, ◌∙◌, true, false, Option, none, some, List, [], ◌∷◌, ◌++◌, map,
  arith,
}
use stream_house_c360_demo.Prelude.Effect.{Error, Result, ok, err, http, unique_violation}
use stream_house_c360_demo.Database.{
  transaction, end_cursor, max_connections, put_conn, get_conn, Pool, cursor,
}
use stream_house_c360_demo.Database.Transactions.{cursor-Ends}
use stream_house_c360_demo.DbSink.{
  fetch_one, entity, ltb, delete_sql, text, update_sql, Param, Reply, Server, Table, query,
  insert_returning, insert_returning_sql, create_or_conflict, get_by_id, select_all, list_all,
  update, delete_by_id, conflict,
}

module _ {A T R : Type 0} (table : Table A) (server : Server T R) (read : R → Option A)
    (uuid_text : ℕ → String) (database_url : Option String)
    (fault_of_connect : Pool T → Option Error) (fault_of_commit : T → Option Error) where
  -- The connection is given back, and the tables are as they were, or as a statement left them.
  abbrev pub Leaves : {B : Type 0} → String → List Param → Pool T → Result B × Pool T → Type 0
  Leaves sql params s out =
      (out.1.in_use ≡ s.in_use)
      × ((out.1.committed ≡ s.committed)
          ⊎ (out.1.committed ≡ (server.execute sql params s.committed).1))

  -- The same of an operation that only reads.
  abbrev pub Reads : {B : Type 0} → Pool T → Result B × Pool T → Type 0
  Reads s out = (out.1.in_use ≡ s.in_use) × (out.1.committed ≡ s.committed)

  query-Leaves :
      (sql : String) (params : List Param) (s : Pool T)
      → Leaves sql params s (
          query table server read uuid_text database_url fault_of_connect fault_of_commit true sql
            params s)
  unfolding query
  query-Leaves sql params s = ground (
    arith,
    cursor-Ends database_url fault_of_connect fault_of_commit true (server.execute sql params) s,
  )

  query-Reads :
      (sql : String) (params : List Param) (s : Pool T)
      → Reads s (
          query table server read uuid_text database_url fault_of_connect fault_of_commit false sql
            params s)
  unfolding query
  query-Reads sql params s = ground (
    arith,
    cursor-Ends database_url fault_of_connect fault_of_commit false (server.execute sql params) s,
  )

  get_conn_room :
      (url : String) (s : Pool T)
      → database_url ≡ some url
      → ltb s.in_use max_connections ≡ true
      → fault_of_connect s ≡ none
      → get_conn database_url fault_of_connect fault_of_commit s
        ≡ (ok tt, record s { in_use = suc s.in_use })
  unfolding get_conn
  get_conn_room url s u room c = rw (get_conn, u, c) (ground (arith, room))

  one_back : (n : ℕ) → suc n - 1 ≡ n
  one_back n = omega arith

  -- a statement that raises, on a connection that can be had
  query-raises :
      (sql : String) (params : List Param) (e : Error) (t : T) (s : Pool T)
      → get_conn database_url fault_of_connect fault_of_commit s
        ≡ (ok tt, record s { in_use = suc s.in_use })
      → server.execute sql params s.committed ≡ (err e, t)
      → query table server read uuid_text database_url fault_of_connect fault_of_commit true sql
          params s
        ≡ (err e, s)
  unfolding query cursor put_conn
  query-raises sql params e t s g v =
      ap on_connection g
      ∙ ap ended v
      ∙ ap (λ n. (err e, record s { in_use = n })) (one_back s.in_use)
    where
      ended : Result (Reply R) × T → Result (Reply R) × Pool T
      ended (r, tables) =
          let (r', s') =
            end_cursor database_url fault_of_connect fault_of_commit true r tables
              (record s { in_use = suc s.in_use }) in
          (r', put_conn database_url fault_of_connect fault_of_commit s')

      on_connection : Result (Unit {0}) × Pool T → Result (Reply R) × Pool T
      on_connection (r, s') = elim r [
        | ok a ↦
            (let (r', s'') =
                transaction database_url fault_of_connect fault_of_commit true
                  (server.execute sql params) s' in
              (r', put_conn database_url fault_of_connect fault_of_commit s''))
        | err e ↦ (err e, s')
      ]

  module _ (detail : String) (a : A) (id : ℕ) where
    -- Whatever PostgreSQL answers, each operation gives its connection back. A read leaves the
    -- tables, also an update without a field; any other operation leaves them as they were or as its
    -- one statement left them.
    pub operations-Leave :
        (sql : String) (params : List Param) (f : String × Param) (fields : List (String × Param))
        (s : Pool T)
        → Reads s (
            get_by_id table server read uuid_text database_url fault_of_connect fault_of_commit id
              s)
          × Reads s (
              select_all table server read uuid_text database_url fault_of_connect fault_of_commit
                sql params s)
          × Reads s
              (list_all table server read uuid_text database_url fault_of_connect fault_of_commit s)
          × Reads s (
              update table server read uuid_text database_url fault_of_connect fault_of_commit id []
                s)
          × Leaves
              (update_sql table (f ∷ fields))
              (map (λ g. g.1) (f ∷ fields) ++ text (uuid_text id) ∷ [])
              s
              (update table server read uuid_text database_url fault_of_connect fault_of_commit id
                (f ∷ fields)
                s)
          × Leaves (delete_sql table) (text (uuid_text id) ∷ []) s (
              delete_by_id table server read uuid_text database_url fault_of_connect fault_of_commit
                id s)
          × Leaves (insert_returning_sql table) (table.insert_params a) s (
              create_or_conflict table server read uuid_text database_url fault_of_connect
                fault_of_commit detail a s)
    unfolding get_by_id select_all list_all update delete_by_id create_or_conflict insert_returning
    operations-Leave sql params f fields s = (
      query-Reads _ _ s,
      query-Reads _ _ s,
      query-Reads _ _ s,
      query-Reads _ _ s,
      query-Leaves _ _ s,
      query-Leaves _ _ s,
      query-Leaves _ _ s,
    )

    -- If a connection can be had and the insert violates a unique constraint, `create` raises a 409
    -- and leaves the tables and the pool as they were.
    pub create-conflict :
        (url : String) (t : T) (s : Pool T)
        → database_url ≡ some url
        → ltb s.in_use max_connections ≡ true
        → fault_of_connect s ≡ none
        → server.execute (insert_returning_sql table) (table.insert_params a) s.committed
          ≡ (err unique_violation, t)
        → create_or_conflict table server read uuid_text database_url fault_of_connect
            fault_of_commit detail a s
          ≡ (err (http 409 detail), s)
    unfolding create_or_conflict insert_returning
    create-conflict url t s u room c v = ap answered (
        query-raises (insert_returning_sql table) (table.insert_params a) unique_violation t s
          (get_conn_room url s u room c) v)
      where
        answered : Result (Reply R) × Pool T → Result A × Pool T
        answered (r, s') = (
          conflict detail (elim r [
            | ok reply ↦
                entity table server read uuid_text database_url fault_of_connect fault_of_commit (
                  fetch_one table server read uuid_text database_url fault_of_connect
                    fault_of_commit reply)
            | err e ↦ err e
          ]),
          s',
        )
