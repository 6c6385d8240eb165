-- ===== src/Bootstrap/Quiet.antt =====
-- What a start of the backend writes, and what it leaves as it is.
use stream_house_c360_demo.Prelude.{◌≡◌, String, Bool, false, not, ◌&&◌, Option, List, arith}
use stream_house_c360_demo.Prelude.Effect.{Error, Result, ok, err, Action}
use stream_house_c360_demo.Config.{Settings, owns_cdc}
use stream_house_c360_demo.Scalars.{Formats, Datetime, Date}
use stream_house_c360_demo.Database.{Pool}
use stream_house_c360_demo.Inventory.{Store}
use stream_house_c360_demo.Kafka.{Client, Bus}
use stream_house_c360_demo.DbSink.{Server}
use stream_house_c360_demo.Accounts.Models.{Account}
use stream_house_c360_demo.Accounts.Producer.{AccountValue}
use stream_house_c360_demo.Customers.Models.{Customer}
use stream_house_c360_demo.Customers.Producer.{CustomerValue}
use stream_house_c360_demo.Transactions.Models.{Transaction}
use stream_house_c360_demo.Transactions.Producer.{TransactionValue}
use stream_house_c360_demo.Bootstrap.{World, init_and_seed, load_all, seed_kafka, prepare, start_up}

-- what was published so far
abbrev pub buses :
    {T : Type 0} → World T → Bus CustomerValue × Bus AccountValue × Bus TransactionValue
buses w = (w.customer_bus, w.account_bus, w.transaction_bus)

-- the database and the inventories
abbrev pub tables :
    {T : Type 0} → World T → Pool T × Store Customer × Store Account × Store Transaction
tables w = (w.db, w.customers, w.accounts, w.transactions)

-- whether the records are published after a preparation
abbrev pub publishes : Settings → Result (Unit {0}) → Bool
publishes settings (err e) = false
publishes settings (ok a) = settings.kafka_seed_on_start && not (owns_cdc settings)

module _ (f : Formats) (now : Datetime) (today : Date) {T R : Type 0} (server : Server T R)
    (fault_of_connect : Pool T → Option Error) (fault_of_commit : T → Option Error)
    (settings : Settings) (read_customer : R → Option Customer) (read_account : R → Option Account)
    (read_transaction : R → Option Transaction)
    (statements : List String × List String × List String) (customer_client : Client CustomerValue)
    (account_client : Client AccountValue) (transaction_client : Client TransactionValue) where
  abbrev made : Action (World T) (Unit {0})
  made =
      init_and_seed f now today server fault_of_connect fault_of_commit settings read_customer
        read_account read_transaction statements

  abbrev loaded : Action (World T) (Unit {0})
  loaded =
      load_all f now today server fault_of_connect fault_of_commit settings read_customer
        read_account read_transaction statements

  abbrev published : Action (World T) (Unit {0})
  published =
      seed_kafka f now today server fault_of_connect fault_of_commit settings read_customer
        read_account read_transaction statements customer_client account_client transaction_client

  abbrev prepared : Action (World T) (Unit {0})
  prepared =
      prepare f now today server fault_of_connect fault_of_commit settings read_customer
        read_account read_transaction statements customer_client account_client transaction_client

  abbrev started : Action (World T) (Unit {0})
  started =
      start_up f now today server fault_of_connect fault_of_commit settings read_customer
        read_account read_transaction statements customer_client account_client transaction_client

  -- `seed_kafka` never raises, whatever the Kafka clients do, and touches neither a table nor an
  -- inventory.
  pub seed_kafka-tables :
      (w : World T) → ((published w).0 ≡ ok tt) × (tables (published w).1 ≡ tables w)
  unfolding seed_kafka
  seed_kafka-tables w = ground arith
