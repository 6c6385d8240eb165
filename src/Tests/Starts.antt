-- ===== src/Tests/Starts.antt =====
-- A start on the kafka sink, with one record in each CSV file.
use stream_house_c360_demo.Prelude.{ℕ, String, true, Option, none, List, []}
use stream_house_c360_demo.Prelude.Effect.{Action}
use stream_house_c360_demo.Scalars.{naive}
use stream_house_c360_demo.Config.{Settings}
use stream_house_c360_demo.Accounts.Models.{Account}
use stream_house_c360_demo.Customers.Models.{Customer}
use stream_house_c360_demo.Transactions.Models.{Transaction}
use stream_house_c360_demo.Bootstrap.{World, seed_kafka, prepare, start_up}
use stream_house_c360_demo.Tests.Samples.{formats, settings_of, client, idle, one_account}
use stream_house_c360_demo.Tests.Batches.{one_customer, one_transaction}
use stream_house_c360_demo.Tests.Sinks.{server, read, connect, commit, pool}

abbrev seeding : Settings
seeding = record (settings_of "kafka") { kafka_seed_on_start = true }

abbrev world : World ℕ
world = record {
  db = pool;
  customers = one_customer;
  accounts = one_account;
  transactions = one_transaction;
  customer_bus = idle;
  account_bus = idle;
  transaction_bus = idle;
}

abbrev no_customer : Account → Option Customer
no_customer row = none

abbrev no_transaction : Account → Option Transaction
no_transaction row = none

abbrev statements : List String × List String × List String
statements = ([], [], [])

abbrev prepared : Action (World ℕ) (Unit {0})
prepared =
    prepare formats (naive 20) 740000 server connect commit seeding no_customer read no_transaction
      statements client client client

abbrev published : Action (World ℕ) (Unit {0})
published =
    seed_kafka formats (naive 20) 740000 server connect commit seeding no_customer read
      no_transaction statements client client client

abbrev started : Action (World ℕ) (Unit {0})
started =
    start_up formats (naive 20) 740000 server connect commit seeding no_customer read no_transaction
      statements client client client
