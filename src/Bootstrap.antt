-- ===== src/Bootstrap.antt =====
-- bootstrap.py, and the start of main.py's lifespan: the tables are made and seeded from the CSV
-- files, and the records of the files are published.
pub mod Quiet
use stream_house_c360_demo.Prelude.{
  ℕ, String, Bool, true, false, not, Option, none, some, List, [], ◌∷◌, str_eq, if◌then◌else◌,
}
use stream_house_c360_demo.Prelude.Effect.{Error, ok, Action, pure, catch, ◌>>=◌, ◌>>◌}
use stream_house_c360_demo.Config.{Settings, owns_cdc}
use stream_house_c360_demo.Scalars.{Formats, Datetime, Date}
use stream_house_c360_demo.Database.{Pool}
use stream_house_c360_demo.Inventory.{Store, Codec, load, list_all}
use stream_house_c360_demo.Kafka.{Client, Bus, Events, produce_create}
use stream_house_c360_demo.DbSink.{Server, Table, init_db, seed_from_csv}
use stream_house_c360_demo.Accounts.Models.{Account}
use stream_house_c360_demo.Accounts.Inventory as AccountInventory
use stream_house_c360_demo.Accounts.Producer.{AccountValue, account_events}
use stream_house_c360_demo.Accounts.DbSink.{accounts_table}
use stream_house_c360_demo.Customers.Models.{Customer}
use stream_house_c360_demo.Customers.Inventory as CustomerInventory
use stream_house_c360_demo.Customers.Producer.{CustomerValue, customer_events}
use stream_house_c360_demo.Customers.DbSink.{customers_table}
use stream_house_c360_demo.Transactions.Models.{Transaction}
use stream_house_c360_demo.Transactions.Inventory as TransactionInventory
use stream_house_c360_demo.Transactions.Producer.{TransactionValue, transaction_events}
use stream_house_c360_demo.Transactions.DbSink.{transactions_table}

-- the database, the three inventories and the three producers
pub record World (T : Type 0) : Type 0 where
  pub db : Pool T
  pub customers : Store Customer
  pub accounts : Store Account
  pub transactions : Store Transaction
  pub customer_bus : Bus CustomerValue
  pub account_bus : Bus AccountValue
  pub transaction_bus : Bus TransactionValue

-- an action on a part of a state
abbrev pub on_part : {S X A : Type 0} → (S → X) → (X → S → S) → Action X A → Action S A
on_part get put m s = let (r, x) = m (get s) in (r, put x s)

-- `_SEED_FLUSH_TIMEOUT`, in milliseconds
abbrev pub seed_flush_timeout : ℕ
seed_flush_timeout = 5000

-- `list_all` of an inventory
abbrev pub stored : {A : Type 0} → Codec A → Action (Store A) (List A)
stored codec s = (ok (list_all codec s), s)

module _ {T : Type 0} where
  abbrev pub on_db : {A : Type 0} → Action (Pool T) A → Action (World T) A
  on_db = on_part (λ w. w.db) (λ d w. record w { db = d })

  abbrev pub on_customers : {A : Type 0} → Action (Store Customer) A → Action (World T) A
  on_customers = on_part (λ w. w.customers) (λ s w. record w { customers = s })

  abbrev pub on_accounts : {A : Type 0} → Action (Store Account) A → Action (World T) A
  on_accounts = on_part (λ w. w.accounts) (λ s w. record w { accounts = s })

  abbrev pub on_transactions : {A : Type 0} → Action (Store Transaction) A → Action (World T) A
  on_transactions = on_part (λ w. w.transactions) (λ s w. record w { transactions = s })

  abbrev pub on_customer_bus : {A : Type 0} → Action (Bus CustomerValue) A → Action (World T) A
  on_customer_bus = on_part (λ w. w.customer_bus) (λ b w. record w { customer_bus = b })

  abbrev pub on_account_bus : {A : Type 0} → Action (Bus AccountValue) A → Action (World T) A
  on_account_bus = on_part (λ w. w.account_bus) (λ b w. record w { account_bus = b })

  abbrev pub on_transaction_bus :
      {A : Type 0} → Action (Bus TransactionValue) A → Action (World T) A
  on_transaction_bus = on_part (λ w. w.transaction_bus) (λ b w. record w { transaction_bus = b })

-- a loop of `seed_kafka`
unfoldable pub produce_all :
    {A V : Type 0} → Events A V → Client V → Settings → List A → Action (Bus V) (Unit {0})
produce_all events client settings [] = pure tt
produce_all events client settings (a ∷ more) = do
  produce_create events client settings a (some seed_flush_timeout)
  produce_all events client settings more

module _ (f : Formats) (now : Datetime) (today : Date) {T R : Type 0} (server : Server T R)
    (fault_of_connect : Pool T → Option Error) (fault_of_commit : T → Option Error)
    (settings : Settings) where
  -- the three steps of a table, with the inventory's part of the state
  abbrev pub seed_table :
      {A : Type 0}
      → Table A
      → Codec A
      → (Action (Store A) (List A) → Action (World T) (List A))
      → (R → Option A)
      → List String
      → Action (World T) (Unit {0})
  seed_table table codec on_store read statements = do
    on_db (
        init_db table server read f.uuid_text settings.database_url fault_of_connect fault_of_commit
          statements)
    rows ← on_store (load codec)
    on_db (
        seed_from_csv table server read f.uuid_text settings.database_url fault_of_connect
          fault_of_commit rows)

  module _ (read_customer : R → Option Customer) (read_account : R → Option Account)
      (read_transaction : R → Option Transaction)
      (statements : List String × List String × List String) where
    -- the statements are `_DDL_STATEMENTS` of each db_sink
    unfoldable pub init_and_seed : Action (World T) (Unit {0})
    init_and_seed = do
      seed_table (customers_table f) (CustomerInventory.codec f now) on_customers read_customer
          statements.0
      seed_table (accounts_table f) (AccountInventory.codec f now today) on_accounts read_account
          statements.1
      seed_table (transactions_table f) (TransactionInventory.codec f now) on_transactions
          read_transaction statements.2

    -- the inventories of the kafka sink
    unfoldable pub load_all : Action (World T) (Unit {0})
    load_all = do
      on_customers (load (CustomerInventory.codec f now))
      on_accounts (load (AccountInventory.codec f now today))
      on_transactions (load (TransactionInventory.codec f now))
      pure tt

    module _ (customer_client : Client CustomerValue) (account_client : Client AccountValue)
        (transaction_client : Client TransactionValue) where
      -- the body of the `try`
      abbrev pub publish_all : Action (World T) (Unit {0})
      publish_all = do
        customers ← on_customers (stored (CustomerInventory.codec f now))
        on_customer_bus (produce_all (customer_events f) customer_client settings customers)
        accounts ← on_accounts (stored (AccountInventory.codec f now today))
        on_account_bus (produce_all (account_events f) account_client settings accounts)
        transactions ← on_transactions (stored (TransactionInventory.codec f now))
        on_transaction_bus
            (produce_all (transaction_events f) transaction_client settings transactions)

      unfoldable pub seed_kafka : Action (World T) (Unit {0})
      seed_kafka = catch publish_all (λ e. pure tt)

      abbrev pub prepare : Action (World T) (Unit {0})
      prepare =
          if str_eq settings.sink "postgres"
          then init_and_seed
          else if str_eq settings.sink "kafka"
          then load_all
          else pure tt

      abbrev pub seed_if : Bool → Bool → Action (World T) (Unit {0})
      seed_if true false = seed_kafka
      seed_if _ _ = pure tt

      -- `lifespan`, up to its `yield`
      unfoldable pub start_up : Action (World T) (Unit {0})
      start_up = prepare >> seed_if settings.kafka_seed_on_start (owns_cdc settings)
