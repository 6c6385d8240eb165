-- ===== src/Transactions/Service/Outcomes.antt =====
-- What a request for transactions returns, and what it leaves in the database.
use stream_house_c360_demo.Prelude.{
  ℕ, ◌≡◌, refl, List, arith, str_eq, if◌then◌else◌, Bool-cases, inl, inr,
}
use stream_house_c360_demo.Prelude.Effect.{
  Result, ok, err, type_error, unsupported_sink, Action, ◌>>=◌, ◌>>◌,
}
use stream_house_c360_demo.Config.{Settings}
use stream_house_c360_demo.Scalars.{Datetime, Formats}
use stream_house_c360_demo.Kafka.{Client, Bus}
use stream_house_c360_demo.Transactions.Models.{Transaction, TransactionCreate}
use stream_house_c360_demo.Transactions.Producer.{TransactionValue}
use stream_house_c360_demo.Transactions.Generator.{Draws, generate, default_count}
use stream_house_c360_demo.Transactions.Service.{
  TransactionSink, World, best_effort, maybe_emit, maybe_emit_many, generate_in_postgres,
  generate_batch, create_in_postgres, create,
}

module _ {D : Type 0} (f : Formats) (sink : TransactionSink D) (client : Client TransactionValue)
    (settings : Settings) where
  abbrev IsQuiet : Action (World D) (Unit {0}) → Type 0
  IsQuiet m = (w : World D) → ((m w).0 ≡ ok tt) × ((m w).1.db ≡ w.db)

  best_effort-IsQuiet :
      (m : Action (Bus TransactionValue) (Unit {0}))
      → IsQuiet (best_effort f sink client settings m)
  unfolding best_effort
  best_effort-IsQuiet m w = ground arith

  maybe_emit-IsQuiet : (txn : Transaction) → IsQuiet (maybe_emit f sink client settings txn)
  unfolding maybe_emit
  maybe_emit-IsQuiet txn = best_effort-IsQuiet _

  maybe_emit_many-IsQuiet :
      (txns : List Transaction) → IsQuiet (maybe_emit_many f sink client settings txns)
  unfolding maybe_emit_many
  maybe_emit_many-IsQuiet txns = best_effort-IsQuiet _

  abbrev returned : {A : Type 0} → Result A → Action D A
  returned r d = (r, d)

  -- the steps of a generated batch on the database alone: read the accounts, insert the batch
  abbrev batch_in_db : Draws → ℕ → Action D (List Transaction)
  batch_in_db draws now = do
    accounts ← sink.list_accounts
    txns ← returned (generate draws accounts default_count now)
    sink.create_many txns
    returned (ok txns)

  abbrev Decides : {B : Type 0} → Action D B → Action (World D) B → World D → Type 0
  Decides on_sink operation w =
      ((operation w).0 ≡ (on_sink w.db).0) × ((operation w).1.db ≡ (on_sink w.db).1)

  generate_in_postgres-Decides :
      (draws : Draws) (now : ℕ) (w : World D)
      → Decides (batch_in_db draws now) (generate_in_postgres f sink client settings draws now) w
  unfolding generate_in_postgres
  generate_in_postgres-Decides draws now w = grind (arith, maybe_emit_many-IsQuiet)

  create_in_postgres-Decides :
      (fields : TransactionCreate) (id : ℕ) (now : Datetime) (w : World D)
      → Decides
          (sink.create fields id now)
          (create_in_postgres f sink client settings fields id now)
          w
  unfolding create_in_postgres
  create_in_postgres-Decides fields id now w = grind (arith, maybe_emit-IsQuiet)

  -- With SINK=postgres a request returns, and leaves in the database, what the sink does, whatever
  -- the Kafka clients answer: `create` what `db_sink.create` does, a generated batch what reading
  -- the accounts and inserting the batch does. With any other sink `create` always raises a
  -- TypeError and the batch an UnsupportedSinkError, and nothing is written.
  pub requests_decided :
      (fields : TransactionCreate) (id : ℕ) (at : Datetime) (draws : Draws) (now : ℕ) (w : World D)
      → (if str_eq settings.sink "postgres"
          then Decides (sink.create fields id at) (create f sink client settings fields id at) w
            × Decides (batch_in_db draws now) (generate_batch f sink client settings draws now) w
          else (create f sink client settings fields id at w ≡ (err type_error, w))
            × (generate_batch f sink client settings draws now w
                ≡ (err (unsupported_sink settings.sink), w)))
  unfolding create generate_batch
  requests_decided fields id at draws now w = elim (Bool-cases (str_eq settings.sink "postgres")) [
    | inl postgres ↦
        rw postgres
          (create_in_postgres-Decides fields id at w, generate_in_postgres-Decides draws now w)
    | inr other ↦ rw other (refl, refl)
  ]
