-- ===== src/Kafka.antt =====
-- kafka_setup.py and what the three producer modules share: the calls that reach the Kafka and
-- Schema Registry clients, the provisioning of a topic, and a producer made on first use.
-- The clients are not part of this repository. A `Client` is any function that answers a call,
-- given all the calls before it; nothing is assumed of it.
pub mod Setup
pub mod Producing
pub mod Opening
use Prim.Native.String.{◌++◌ as str_append}
use stream_house_c360_demo.Prelude.{
  text_or_empty, ℕ, String, Bool, true, false, Option, none, some, List, [], ◌∷◌, ◌&&◌,
  if◌then◌else◌, ◌==◌, str_eq,
}
use stream_house_c360_demo.Prelude.Effect.{
  Fault, topic_already_exists, registry_status, other_fault, Error, kafka, Result, ok, err, Action,
  pure, raise, catch, ◌>>=◌, ◌>>◌,
}
use stream_house_c360_demo.Config.{Settings, is_set}

-- `client_conf`; the credentials are there if both are set (SASL_SSL, PLAIN).
pub record ClientConf : Type 0 where
  pub bootstrap_servers : Option String
  pub sasl : Option (String × String)

-- `_build_source`
pub record Source : Type 0 where
  pub version : String
  pub connector : String
  pub name : String
  pub ts_ms : ℕ
  pub snapshot : String
  pub db : String
  pub sequence : Option String
  pub schema : String
  pub table : String
  pub tx_id : Option ℕ
  pub lsn : Option ℕ
  pub xmin : Option ℕ

-- `_build_envelope`; `V` is the entity's value record.
pub record Envelope (V : Type 0) : Type 0 where
  pub before : Option V
  pub after : Option V
  pub source : Source
  pub op : String
  pub ts_ms : ℕ
  pub transaction : Option String

-- A key record has one field, its name and its value.
abbrev pub Key : Type 0
Key = String × String

-- A timeout of a flush is in milliseconds; `none` is a flush that waits without bound.
pub data Call (V : Type 0) : Type 0 where
  open_registry : Option String → Call V
  create_topics lookup_schema register_schema : String → Call V
  open_producer : ClientConf → Call V
  produce : String → Key → Envelope V → Call V
  poll : Call V
  flush : Option ℕ → Call V

pub data Reply : Type 0 where
  done : Reply
  failed : Fault → Reply

-- The calls before it, the latest first, decide how a call is answered and what time it is.
pub record Client (V : Type 0) : Type 0 where
  pub answer : List (Call V) → Call V → Reply
  pub time_ms : List (Call V) → ℕ

-- `_producer is not None`, and the calls so far, the latest first.
pub record Bus (V : Type 0) : Type 0 where
  pub ready : Bool
  pub calls : List (Call V)

-- What makes a producer module its own: topic, table, key and value of an entity.
pub record Events (A V : Type 0) : Type 0 where
  pub topic : Settings → String
  pub table : String
  pub key_of : A → Key
  pub value_of : A → V

module _ {V : Type 0} (client : Client V) where
  unfoldable pub send : Call V → Action (Bus V) (Unit {0})
  send call b = elim (client.answer b.calls call) [
    | done ↦ (ok tt, record b { calls = call ∷ b.calls })
    | failed fault ↦ (err (kafka fault), record b { calls = call ∷ b.calls })
  ]

  abbrev allow_existing : Error → Action (Bus V) (Unit {0})
  allow_existing (kafka topic_already_exists) = pure tt
  allow_existing e = raise e

  unfoldable pub ensure_topic : String → Action (Bus V) (Unit {0})
  ensure_topic topic = catch (send (create_topics topic)) allow_existing

  abbrev register_missing : String → Error → Action (Bus V) (Unit {0})
  register_missing subject (kafka (registry_status status)) =
      if status == 404
      then send (register_schema subject)
      else raise (kafka (registry_status status))
  register_missing subject e = raise e

  unfoldable pub ensure_schema : String → Action (Bus V) (Unit {0})
  ensure_schema subject = catch (send (lookup_schema subject)) (register_missing subject)

  unfoldable pub ensure_kafka_resources : String → Action (Bus V) (Unit {0})
  ensure_kafka_resources topic = do
    ensure_topic topic
    ensure_schema (str_append topic "-key")
    ensure_schema (str_append topic "-value")

unfoldable pub client_conf : Settings → ClientConf
client_conf s = record {
  bootstrap_servers = s.kafka_bootstrap_servers;
  sasl =
      if is_set s.kafka_api_key && is_set s.kafka_api_secret
      then some (text_or_empty s.kafka_api_key, text_or_empty s.kafka_api_secret)
      else none;
}

abbrev pub op_create : String
op_create = "c"

abbrev pub op_update : String
op_update = "u"

abbrev pub op_delete : String
op_delete = "d"

unfoldable pub build_source : String → ℕ → Source
build_source table ts_ms = record {
  version = "2.0.0.bypass";
  connector = "c360-backend-bypass";
  name = "cdc";
  ts_ms = ts_ms;
  snapshot = "false";
  db = "c360db";
  sequence = none;
  schema = "public";
  table = table;
  tx_id = none;
  lsn = none;
  xmin = none;
}

abbrev pub mark_ready : {V : Type 0} → Action (Bus V) (Unit {0})
mark_ready b = (ok tt, record b { ready = true })

module _ {A V : Type 0} (events : Events A V) where
  unfoldable pub build_envelope : A → String → ℕ → Envelope V
  build_envelope a op ts_ms = record {
    before = if str_eq op op_delete then some (events.value_of a) else none;
    after = if str_eq op op_delete then none else some (events.value_of a);
    source = build_source events.table ts_ms;
    op = op;
    ts_ms = ts_ms;
    transaction = none;
  }

  module _ (client : Client V) (settings : Settings) where
    unfoldable pub init_producer : Action (Bus V) (Unit {0})
    init_producer = do
      send client (open_registry settings.schema_registry_url)
      ensure_kafka_resources client (events.topic settings)
      send client (open_producer (client_conf settings))

    -- by whether the module has a producer
    unfoldable pub ready_producer : Bool → Action (Bus V) (Unit {0})
    ready_producer true = pure tt
    ready_producer false = init_producer >> mark_ready

    unfoldable pub get_producer : Action (Bus V) (Unit {0})
    get_producer b = ready_producer b.ready b

    -- the call of `producer.produce`, its arguments made at that moment
    unfoldable pub submit : A → String → Action (Bus V) (Unit {0})
    submit a op b =
        send client
          (produce (events.topic settings) (events.key_of a)
            (build_envelope a op (client.time_ms b.calls)))
          b

    -- `_produce`; the number that the flush leaves unconfirmed is only logged
    unfoldable pub produce_event : A → String → Option ℕ → Action (Bus V) (Unit {0})
    produce_event a op flush_timeout = do
      get_producer
      submit a op
      send client (flush flush_timeout)

    abbrev pub produce_create : A → Option ℕ → Action (Bus V) (Unit {0})
    produce_create a = produce_event a op_create

    abbrev pub produce_update : A → Option ℕ → Action (Bus V) (Unit {0})
    produce_update a = produce_event a op_update

    abbrev pub produce_delete : A → Option ℕ → Action (Bus V) (Unit {0})
    produce_delete a = produce_event a op_delete

    -- the loop of `produce_create_many` of transactions/kafka_producer.py
    unfoldable pub submit_all : List A → Action (Bus V) (Unit {0})
    submit_all [] = pure tt
    submit_all (a ∷ more) = do submit a op_create; send client poll; submit_all more

    unfoldable pub produce_create_many : List A → Option ℕ → Action (Bus V) (Unit {0})
    produce_create_many entities flush_timeout = do
      get_producer
      submit_all entities
      send client (flush flush_timeout)
