-- ===== src/Tests/Samples.antt =====
-- Formats that can be read back: every scalar is written as three counts, in the letters a, b, c.
use Prim.Native.Char.{Char, code}
use Prim.Native.String.{String}
use stream_house_c360_demo.Prelude.{
  [], ◌∙◌, sym, ◌∷◌, ap, ℕ, zero, suc, ◌+◌, ◌≡◌, ◌≢◌, refl, true, false, Option, none, some, arith,
  if◌then◌else◌, ◌==◌,
}
use stream_house_c360_demo.Prelude.Int.{pos, negsuc}
use stream_house_c360_demo.Prelude.Effect.{topic_already_exists, registry_status}
use stream_house_c360_demo.Config.{Settings}
use stream_house_c360_demo.Kafka.{
  Call, create_topics, lookup_schema, Reply, done, failed, Client, Bus,
}
use stream_house_c360_demo.Inventory.{Codec, Store, line}
use stream_house_c360_demo.Accounts.Models.{Account, AccountCreate, AccountUpdate}
use stream_house_c360_demo.Accounts.Inventory.{fieldnames, codec}
use stream_house_c360_demo.Scalars.{Float, Datetime, naive, aware, Formats, RoundTrips}

abbrev pub marks : ℕ → ℕ → ℕ → String
marks (suc n) m k = String.◌∷◌ "a" (marks n m k)
marks zero (suc m) k = String.◌∷◌ "b" (marks zero m k)
marks zero zero (suc k) = String.◌∷◌ "c" (marks zero zero k)
marks zero zero zero = "."

abbrev pub count_of : Char → String → ℕ
count_of c String.[] = 0
count_of c (String.◌∷◌ d s) = if code c == code d then suc (count_of c s) else count_of c s

count_a : (n m k : ℕ) → count_of "a" (marks n m k) ≡ n
count_a (suc n) m k = ground (arith, count_a n m k)
count_a zero (suc m) k = ground (arith, count_a zero m k)
count_a zero zero (suc k) = ground (arith, count_a zero zero k)
count_a zero zero zero = refl

count_b : (n m k : ℕ) → count_of "b" (marks n m k) ≡ m
count_b (suc n) m k = ground (arith, count_b n m k)
count_b zero (suc m) k = ground (arith, count_b zero m k)
count_b zero zero (suc k) = ground (arith, count_b zero zero k)
count_b zero zero zero = refl

count_c : (n m k : ℕ) → count_of "c" (marks n m k) ≡ k
count_c (suc n) m k = ground (arith, count_c n m k)
count_c zero (suc m) k = ground (arith, count_c zero m k)
count_c zero zero (suc k) = ground (arith, count_c zero zero k)
count_c zero zero zero = refl

counts :
    (n m k : ℕ)
    → ◌≡◌ {A = ℕ × ℕ × ℕ}
        (count_of "a" (marks n m k), count_of "b" (marks n m k), count_of "c" (marks n m k))
        (n, m, k)
counts n m k = rw (count_a n m k, count_b n m k, count_c n m k)

not_suc : (n : ℕ) → suc n ≡ 0 → ⊥
not_suc n h = omega arith

marks_nonempty : (n m k : ℕ) → marks n m k ≢ ""
marks_nonempty (suc n) m k e = not_suc n (sym (count_a (suc n) m k) ∙ ap (count_of "a") e)
marks_nonempty zero (suc m) k e = not_suc m (sym (count_b zero (suc m) k) ∙ ap (count_of "b") e)
marks_nonempty zero zero (suc k) e =
    not_suc k (sym (count_c zero zero (suc k)) ∙ ap (count_of "c") e)
marks_nonempty zero zero zero e = not_suc 0 (ap (count_of ".") e)

abbrev pub float_text : Float → String
float_text v = marks (if v.negative then 1 else 0) v.digits v.places

abbrev pub float_of : String → Option Float
float_of s =
    some
      (record { negative = count_of "a" s == 1; digits = count_of "b" s; places = count_of "c" s })

float_of-float_text : (v : Float) → float_of (float_text v) ≡ some v
float_of-float_text v =
    let sign : ℕ = if v.negative then 1 else 0 in
    ground (
      arith,
      count_a sign v.digits v.places,
      count_b sign v.digits v.places,
      count_c sign v.digits v.places,
    )

abbrev pub datetime_text : Datetime → String
datetime_text (naive t) = marks 0 t 0
datetime_text (aware t (pos n)) = marks 1 t n
datetime_text (aware t (negsuc n)) = marks 2 t n

abbrev pub datetime_at : ℕ → ℕ → ℕ → Datetime
datetime_at zero t n = naive t
datetime_at (suc zero) t n = aware t (pos n)
datetime_at (suc (suc k)) t n = aware t (negsuc n)

abbrev datetime_of_counts : ℕ × ℕ × ℕ → Option Datetime
datetime_of_counts (n, t, k) = some (datetime_at n t k)

abbrev pub datetime_of : String → Option Datetime
datetime_of s = some (datetime_at (count_of "a" s) (count_of "b" s) (count_of "c" s))

datetime_of-datetime_text : (t : Datetime) → datetime_of (datetime_text t) ≡ some t
datetime_of-datetime_text (naive t) = ap datetime_of_counts (counts 0 t 0)
datetime_of-datetime_text (aware t (pos n)) = ap datetime_of_counts (counts 1 t n)
datetime_of-datetime_text (aware t (negsuc n)) = ap datetime_of_counts (counts 2 t n)

datetime_nonempty : (t : Datetime) → datetime_text t ≢ ""
datetime_nonempty (naive t) = marks_nonempty 0 t 0
datetime_nonempty (aware t (pos n)) = marks_nonempty 1 t n
datetime_nonempty (aware t (negsuc n)) = marks_nonempty 2 t n

abbrev pub formats : Formats
formats = record {
  uuid_text = λ u. marks u 0 0;
  uuid_of = λ s. some (count_of "a" s);
  float_text = float_text;
  float_of = float_of;
  date_text = λ d. marks 0 d 0;
  date_of = λ s. some (count_of "b" s);
  datetime_text = datetime_text;
  datetime_of = datetime_of;
  zoned_text = λ t. marks 0 t 0;
  uuid5 = λ s. 100 + count_of "a" s;
}

pub round_trips : RoundTrips formats
round_trips = record {
  uuid = λ u. ap some (count_a u 0 0);
  uuid_nonempty = λ u. marks_nonempty u 0 0;
  float = float_of-float_text;
  float_nonempty = λ v. marks_nonempty _ v.digits v.places;
  date = λ d. ap some (count_b 0 d 0);
  date_nonempty = λ d. marks_nonempty 0 d 0;
  datetime = datetime_of-datetime_text;
  datetime_nonempty = datetime_nonempty;
}

-- settings with a sink and no CDC connector, and event production on
abbrev pub settings_of : String → Settings
settings_of sink = record {
  sink = sink;
  cdc_connector_enabled = some false;
  kafka_produce_enabled = true;
  kafka_seed_on_start = false;
  database_url = none;
  kafka_bootstrap_servers = some "broker";
  kafka_api_key = none;
  kafka_api_secret = none;
  schema_registry_url = some "registry";
  schema_registry_api_key = none;
  schema_registry_api_secret = none;
  kafka_topic_customers = "customers";
  kafka_topic_accounts = "accounts";
  kafka_topic_transactions = "transactions";
  kafka_topic_agent_conversations = "conversations";
  graph_data_mode = "";
  chat_first_prompt = "";
  chat_data_mode = "crm";
  chat_produce_conversations = false;
  llm_base_url = none;
  llm_model = none;
  llm_api_key = "";
  llm_temperature = record { negative = false; digits = 2; places = 1 };
  analytics_data_mode = "";
  confluent_cloud_api_key = none;
  confluent_cloud_api_secret = none;
  flink_api_key = none;
  flink_api_secret = none;
  flink_org_id = none;
  flink_env_id = none;
  flink_compute_pool_id = none;
  flink_crm_compute_pool_id = none;
  flink_rest_endpoint = none;
  flink_catalog = none;
  flink_database = none;
  cloud_region = none;
  cloud_provider = none;
  kafka_cluster_id = none;
  confluent_global_key = none;
  confluent_global_secret = none;
}

-- a client that has the topic already and no schema, and does all else
abbrev pub reply_of : {V : Type 0} → Call V → Reply
reply_of (create_topics topic) = failed topic_already_exists
reply_of (lookup_schema subject) = failed (registry_status 404)
reply_of _ = done

abbrev pub client : {V : Type 0} → Client V
client = record { answer = λ calls call. reply_of call; time_ms = λ calls. 1000 }

abbrev pub idle : {V : Type 0} → Bus V
idle = record { ready = false; calls = [] }

abbrev pub account : String → ℕ → Account
account number id = record {
  customer_id = 5;
  account_number = number;
  account_type = "CHECKING";
  currency = "USD";
  balance = record { negative = false; digits = 12345; places = 3 };
  credit_limit = none;
  opened_date = 730000;
  closed_date = none;
  status = "ACTIVE";
  account_id = id;
  created_at = naive 10;
  updated_at = naive 10;
}

abbrev pub account_create : AccountCreate
account_create = record {
  customer_id = 5;
  account_number = "aaa";
  account_type = "CHECKING";
  currency = "USD";
  balance = record { negative = false; digits = 12345; places = 3 };
  credit_limit = none;
  opened_date = 730000;
  closed_date = none;
  status = "ACTIVE";
}

abbrev pub account_close : AccountUpdate
account_close = record {
  customer_id = none;
  account_number = none;
  account_type = none;
  currency = none;
  balance = none;
  credit_limit = none;
  opened_date = none;
  closed_date = none;
  status = some "CLOSED";
}

-- the inventory of one account and its file
abbrev pub account_codec : Codec Account
account_codec = codec formats (naive 20) 740000

abbrev pub one_account : Store Account
one_account = record {
  cache = account "aa" 7 ∷ [];
  file = fieldnames ∷ line account_codec (account "aa" 7) ∷ [];
}
