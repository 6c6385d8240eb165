-- ===== src/Accounts/Producer.antt =====
-- accounts/kafka_producer.py: the change events of accounts. Sending them is Kafka.antt.
use stream_house_c360_demo.Prelude.Effect.{Action}
use stream_house_c360_demo.Config.{Settings}
use stream_house_c360_demo.Kafka
use stream_house_c360_demo.Kafka.{Bus, Client, Envelope}
use stream_house_c360_demo.Prelude.{ℕ, String, Option, some}
use stream_house_c360_demo.Prelude.Int.{ℤ}
use stream_house_c360_demo.Scalars.{
  Cents, Formats, money, money_opt, days_since_epoch, to_debezium_date, to_debezium_ts,
}
use stream_house_c360_demo.Kafka.{Key, Events}
use stream_house_c360_demo.Accounts.Models.{Account}

-- the record that `_build_value` builds
pub record AccountValue : Type 0 where
  pub account_id : String
  pub customer_id : String
  pub account_number : String
  pub account_type : String
  pub currency : String
  pub balance : Cents
  pub credit_limit : Option Cents
  pub opened_date : ℤ
  pub closed_date : Option ℤ
  pub status : String
  pub created_at : String
  pub updated_at : String

module _ (f : Formats) where
  unfoldable pub build_value : Account → AccountValue
  build_value a = record {
    account_id = f.uuid_text a.account_id;
    customer_id = f.uuid_text a.customer_id;
    account_number = a.account_number;
    account_type = a.account_type;
    currency = a.currency;
    balance = money a.balance;
    credit_limit = money_opt a.credit_limit;
    opened_date = days_since_epoch a.opened_date;
    closed_date = to_debezium_date a.closed_date;
    status = a.status;
    created_at = to_debezium_ts f (some a.created_at);
    updated_at = to_debezium_ts f (some a.updated_at);
  }

  abbrev pub build_key : Account → Key
  build_key a = ("account_id", f.uuid_text a.account_id)

  abbrev pub account_events : Events Account AccountValue
  account_events = record {
    topic = λ s. s.kafka_topic_accounts;
    table = "accounts";
    key_of = build_key;
    value_of = build_value;
  }

  -- the functions of the module, over the Kafka and Schema Registry clients
  abbrev pub build_envelope : Account → String → ℕ → Envelope AccountValue
  build_envelope = Kafka.build_envelope account_events

  module _ (client : Client AccountValue) (settings : Settings) where
    abbrev pub init_producer : Action (Bus AccountValue) (Unit {0})
    init_producer = Kafka.init_producer account_events client settings

    abbrev pub get_producer : Action (Bus AccountValue) (Unit {0})
    get_producer = Kafka.get_producer account_events client settings

    abbrev pub produce_event : Account → String → Option ℕ → Action (Bus AccountValue) (Unit {0})
    produce_event = Kafka.produce_event account_events client settings
