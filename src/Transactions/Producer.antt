-- ===== src/Transactions/Producer.antt =====
-- transactions/kafka_producer.py: the create events of transactions. Sending them is Kafka.antt.
use stream_house_c360_demo.Prelude.Effect.{Action}
use stream_house_c360_demo.Config.{Settings}
use stream_house_c360_demo.Kafka
use stream_house_c360_demo.Kafka.{Bus, Client, Envelope}
use stream_house_c360_demo.Prelude.{List, ℕ, String, Option, none, some}
use stream_house_c360_demo.Scalars.{Cents, Datetime, Formats, money, utc_micros}
use stream_house_c360_demo.Kafka.{Key, Events}
use stream_house_c360_demo.Transactions.Models.{Transaction}

-- the record that `_build_value` builds
pub record TransactionValue : Type 0 where
  pub transaction_id : String
  pub account_id : String
  pub customer_id : String
  pub transaction_type : String
  pub amount : Cents
  pub currency : String
  pub description : Option String
  pub merchant_name : Option String
  pub merchant_category : Option String
  pub channel : Option String
  pub status : String
  pub transacted_at : Option String
  pub posted_at : Option String
  pub created_at : Option String

module _ (f : Formats) where
  -- `_to_debezium_ts` of this module, which keeps a missing timestamp missing
  abbrev pub zoned : Option Datetime → Option String
  zoned none = none
  zoned (some t) = some (f.zoned_text (utc_micros t))

  unfoldable pub build_value : Transaction → TransactionValue
  build_value t = record {
    transaction_id = f.uuid_text t.transaction_id;
    account_id = f.uuid_text t.account_id;
    customer_id = f.uuid_text t.customer_id;
    transaction_type = t.transaction_type;
    amount = money t.amount;
    currency = t.currency;
    description = t.description;
    merchant_name = t.merchant_name;
    merchant_category = t.merchant_category;
    channel = t.channel;
    status = t.status;
    transacted_at = zoned (some t.transacted_at);
    posted_at = zoned t.posted_at;
    created_at = zoned (some t.created_at);
  }

  abbrev pub build_key : Transaction → Key
  build_key t = ("transaction_id", f.uuid_text t.transaction_id)

  abbrev pub transaction_events : Events Transaction TransactionValue
  transaction_events = record {
    topic = λ s. s.kafka_topic_transactions;
    table = "transactions";
    key_of = build_key;
    value_of = build_value;
  }

  -- the functions of the module, over the Kafka and Schema Registry clients
  abbrev pub build_envelope : Transaction → String → ℕ → Envelope TransactionValue
  build_envelope = Kafka.build_envelope transaction_events

  module _ (client : Client TransactionValue) (settings : Settings) where
    abbrev pub init_producer : Action (Bus TransactionValue) (Unit {0})
    init_producer = Kafka.init_producer transaction_events client settings

    abbrev pub get_producer : Action (Bus TransactionValue) (Unit {0})
    get_producer = Kafka.get_producer transaction_events client settings

    abbrev pub produce_create : Transaction → Option ℕ → Action (Bus TransactionValue) (Unit {0})
    produce_create = Kafka.produce_create transaction_events client settings

    abbrev pub produce_create_many :
        List Transaction → Option ℕ → Action (Bus TransactionValue) (Unit {0})
    produce_create_many = Kafka.produce_create_many transaction_events client settings
