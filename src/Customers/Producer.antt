-- ===== src/Customers/Producer.antt =====
-- customers/kafka_producer.py: the change events of customers. Sending them is Kafka.antt.
use stream_house_c360_demo.Prelude.Effect.{Action}
use stream_house_c360_demo.Config.{Settings}
use stream_house_c360_demo.Kafka
use stream_house_c360_demo.Kafka.{Bus, Client, Envelope}
use stream_house_c360_demo.Prelude.{ℕ, String, Option, none, some}
use stream_house_c360_demo.Scalars.{Datetime, Formats, to_debezium_ts}
use stream_house_c360_demo.Kafka.{Key, Events}
use stream_house_c360_demo.Customers.Models.{Customer}

-- the record that `_build_value` builds
pub record CustomerValue : Type 0 where
  pub customer_id : String
  pub first_name : String
  pub last_name : String
  pub email : String
  pub phone : Option String
  pub date_of_birth : Option String
  pub gender : Option String
  pub address_line1 : Option String
  pub address_line2 : Option String
  pub city : Option String
  pub state : Option String
  pub postal_code : Option String
  pub country : String
  pub customer_since : String
  pub segment : Option String
  pub status : String
  pub created_at : String
  pub updated_at : String

module _ (f : Formats) where
  -- a timestamp that may be missing, and stays missing
  abbrev pub ts_opt : Option Datetime → Option String
  ts_opt none = none
  ts_opt (some t) = some (to_debezium_ts f (some t))

  unfoldable pub build_value : Customer → CustomerValue
  build_value c = record {
    customer_id = f.uuid_text c.customer_id;
    first_name = c.first_name;
    last_name = c.last_name;
    email = c.email;
    phone = c.phone;
    date_of_birth = ts_opt c.date_of_birth;
    gender = c.gender;
    address_line1 = c.address_line1;
    address_line2 = c.address_line2;
    city = c.city;
    state = c.state;
    postal_code = c.postal_code;
    country = c.country;
    customer_since = to_debezium_ts f (some c.customer_since);
    segment = c.segment;
    status = c.status;
    created_at = to_debezium_ts f (some c.created_at);
    updated_at = to_debezium_ts f (some c.updated_at);
  }

  abbrev pub build_key : Customer → Key
  build_key c = ("customer_id", f.uuid_text c.customer_id)

  abbrev pub customer_events : Events Customer CustomerValue
  customer_events = record {
    topic = λ s. s.kafka_topic_customers;
    table = "customers";
    key_of = build_key;
    value_of = build_value;
  }

  -- the functions of the module, over the Kafka and Schema Registry clients
  abbrev pub build_envelope : Customer → String → ℕ → Envelope CustomerValue
  build_envelope = Kafka.build_envelope customer_events

  module _ (client : Client CustomerValue) (settings : Settings) where
    abbrev pub init_producer : Action (Bus CustomerValue) (Unit {0})
    init_producer = Kafka.init_producer customer_events client settings

    abbrev pub get_producer : Action (Bus CustomerValue) (Unit {0})
    get_producer = Kafka.get_producer customer_events client settings

    abbrev pub produce_event : Customer → String → Option ℕ → Action (Bus CustomerValue) (Unit {0})
    produce_event = Kafka.produce_event customer_events client settings
