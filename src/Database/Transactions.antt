-- ===== src/Database/Transactions.antt =====
-- db.py: a transaction ends wholly or not at all, and its connection goes back to the pool.
use stream_house_c360_demo.Prelude.{
  ℕ, suc, String, ◌≡◌, ◌⊎◌, refl, inl, Bool, true, false, Option, List, [], ◌∷◌, arith,
  if◌then◌else◌,
}
use stream_house_c360_demo.Prelude.Effect.{Error, Result, ok, err, Action}
use stream_house_c360_demo.Database.{
  transaction, Pool, get_conn, put_conn, on_conn, end_cursor, cursor, insert_all, seed_if_empty,
}

module _ {T : Type 0} (database_url : Option String) (fault_of_connect : Pool T → Option Error)
    (fault_of_commit : T → Option Error) where
  -- what a transaction may leave: these tables if it returned and commits, and else the old ones
  abbrev pub Ends : {A : Type 0} → Bool → T → Pool T → Result A × Pool T → Type 0
  Ends commit tables s out =
      (out.1.in_use ≡ s.in_use)
      × (out.1.committed
          ≡ elim out.0 [ ok a ↦ (if commit then tables else s.committed) | err e ↦ s.committed ])

  end_cursor-Ends :
      {A : Type 0} (commit : Bool) (r : Result A) (tables : T) (s : Pool T)
      → Ends commit tables s
          (end_cursor database_url fault_of_connect fault_of_commit commit r tables s)
  end_cursor-Ends true (ok a) tables s = ground arith
  end_cursor-Ends false (ok a) tables s = (refl, refl)
  end_cursor-Ends commit (err e) tables s = (refl, refl)

  on_conn-Ends :
      {A : Type 0} (commit : Bool) (tables : T) (m : Action (Pool T) A) (s : Pool T)
      → Ends commit tables
          (record s { in_use = suc s.in_use })
          (m (record s { in_use = suc s.in_use }))
      → Ends commit tables s (on_conn database_url fault_of_connect fault_of_commit m s)
  unfolding get_conn put_conn
  on_conn-Ends commit tables m s h = ground arith

  on_transaction-Ends :
      {A : Type 0} (commit : Bool) (body : Action T A) (s : Pool T)
      → Ends commit (body s.committed).1 s (
          on_conn database_url fault_of_connect fault_of_commit
            (transaction database_url fault_of_connect fault_of_commit commit body)
            s)
  on_transaction-Ends commit body s =
      on_conn-Ends commit (body s.committed).1
        (transaction database_url fault_of_connect fault_of_commit commit body) s
        (end_cursor-Ends commit (body s.committed).0 (body s.committed).1
          (record s { in_use = suc s.in_use }))

  -- `cursor` gives its connection back however its body ends. The body's changes are there
  -- if it returned, the cursor commits and the commit succeeded; else the tables are as they were.
  pub cursor-Ends :
      {A : Type 0} (commit : Bool) (body : Action T A) (s : Pool T)
      → Ends commit
          (body s.committed).1
          s
          (cursor database_url fault_of_connect fault_of_commit commit body s)
  unfolding cursor
  cursor-Ends commit body s = on_transaction-Ends commit body s

  module _ {A : Type 0} (count : Action T ℕ) (insert : A → Action T (Unit {0})) where
    -- `seed_if_empty` gives its connection back. The tables are as they were, or else the count was
    -- 0, all rows have been inserted, none of them failing, and it returned.
    pub seed_if_empty-IsAtomic :
        (rows : List A) (s : Pool T)
        → let counted = count s.committed in
          let seeded =
            insert_all database_url fault_of_connect fault_of_commit count insert rows counted.1 in
          let out =
            seed_if_empty database_url fault_of_connect fault_of_commit count insert rows s in
          (out.1.in_use ≡ s.in_use)
          × ((out.1.committed ≡ s.committed)
              ⊎ ((counted.0 ≡ ok 0)
                  × (seeded.0 ≡ ok tt)
                  × (out.0 ≡ ok tt)
                  × (out.1.committed ≡ seeded.1)))
    unfolding seed_if_empty get_conn put_conn
    seed_if_empty-IsAtomic [] s = (refl, inl refl)
    seed_if_empty-IsAtomic (a ∷ more) s = ground arith
