-- ===== src/Transactions/Service.antt =====
-- transactions/service.py: create one transaction or a generated batch, and send the events.
pub mod Outcomes
use stream_house_c360_demo.Prelude.{
  ℕ, String, Bool, true, false, not, Option, none, some, List, str_eq, if◌then◌else◌,
}
use stream_house_c360_demo.Prelude.Effect.{
  Error, Result, ok, err, unsupported_sink, type_error, Action, pure, raise, catch, ◌>>=◌, ◌>>◌,
}
use stream_house_c360_demo.Config.{Settings, owns_cdc}
use stream_house_c360_demo.Scalars.{Datetime, Formats}
use stream_house_c360_demo.Kafka.{Client, Bus, produce_create, produce_create_many}
use stream_house_c360_demo.Accounts.Models.{Account}
use stream_house_c360_demo.Transactions.Models.{Transaction, TransactionCreate}
use stream_house_c360_demo.Transactions.Producer.{TransactionValue, transaction_events}
use stream_house_c360_demo.Transactions.Generator.{Draws, generate, default_count}

-- The functions of transactions/db_sink.py that the service calls, and `accounts_service.list_all`
-- on the PostgreSQL path, over a database `D`.
pub record TransactionSink (D : Type 0) : Type 0 where
  pub create : TransactionCreate → ℕ → Datetime → Action D Transaction
  pub create_many : List Transaction → Action D (List Transaction)
  pub get_by_id : ℕ → Action D (Option Transaction)
  pub list_all : Action D (List Transaction)
  pub list_accounts : Action D (List Account)

pub record World (D : Type 0) : Type 0 where
  pub db : D
  pub bus : Bus TransactionValue

module _ {D A : Type 0} where
  abbrev pub on_db : Action D A → Action (World D) A
  on_db m w = let (r, d) = m w.db in (r, record w { db = d })

  abbrev pub on_bus : Action (Bus TransactionValue) A → Action (World D) A
  on_bus m w = let (r, b) = m w.bus in (r, record w { bus = b })

  abbrev lift : Result A → Action (World D) A
  lift r w = (r, w)

-- `_EMIT_FLUSH_TIMEOUT` and `_EMIT_BATCH_FLUSH_TIMEOUT`, in milliseconds
abbrev pub emit_flush_timeout : ℕ
emit_flush_timeout = 5000

abbrev pub emit_batch_flush_timeout : ℕ
emit_batch_flush_timeout = 30000

module _ {D : Type 0} (f : Formats) (sink : TransactionSink D) (client : Client TransactionValue)
    (settings : Settings) where
  -- the gate of `_maybe_emit` and `_maybe_emit_many`, and their `try`
  unfoldable pub best_effort :
      Action (Bus TransactionValue) (Unit {0}) → Action (World D) (Unit {0})
  best_effort m =
      if owns_cdc settings
      then pure tt
      else if settings.kafka_produce_enabled
      then catch (on_bus m) (λ e. pure tt)
      else pure tt

  unfoldable pub maybe_emit : Transaction → Action (World D) (Unit {0})
  maybe_emit txn =
      best_effort
        (produce_create (transaction_events f) client settings txn (some emit_flush_timeout))

  unfoldable pub maybe_emit_many : List Transaction → Action (World D) (Unit {0})
  maybe_emit_many txns = best_effort (
      produce_create_many (transaction_events f) client settings txns
        (some emit_batch_flush_timeout))

  unfoldable pub generate_in_postgres : Draws → ℕ → Action (World D) (List Transaction)
  generate_in_postgres draws now = do
    accounts ← on_db sink.list_accounts
    txns ← lift (generate draws accounts default_count now)
    on_db (sink.create_many txns)
    maybe_emit_many txns
    pure txns

  -- `generate`, at the time `now`
  unfoldable pub generate_batch : Draws → ℕ → Action (World D) (List Transaction)
  generate_batch draws now =
      if str_eq settings.sink "postgres"
      then generate_in_postgres draws now
      else raise (unsupported_sink settings.sink)

  unfoldable pub create_in_postgres :
      TransactionCreate → ℕ → Datetime → Action (World D) Transaction
  create_in_postgres fields id now = do
    txn ← on_db (sink.create fields id now)
    maybe_emit txn
    pure txn

  -- On any other sink the call of `Transaction` is given `customer_id` twice, by name and by the
  -- dump of the data, which raises before anything is written.
  unfoldable pub create : TransactionCreate → ℕ → Datetime → Action (World D) Transaction
  create fields id now =
      if str_eq settings.sink "postgres" then create_in_postgres fields id now else raise type_error

  abbrev pub get_by_id : ℕ → Action (World D) (Option Transaction)
  get_by_id id = on_db (sink.get_by_id id)

  abbrev pub list_all : Action (World D) (List Transaction)
  list_all = on_db sink.list_all
