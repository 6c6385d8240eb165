-- ===== src/Config.antt =====
-- config.py: the settings, who owns publishing to Kafka, and the URL of the context engine.
pub mod Resolution
use stream_house_c360_demo.Scalars.{Float}
use Prim.Native.String.{◌++◌ as str_append}
use stream_house_c360_demo.Prelude.{
  text_or_empty, String, Bool, false, not, ◌||◌, Option, none, some, List, [], ◌∷◌, str_eq, truthy,
  if◌then◌else◌,
}

-- `class Settings`, the environment file aside. `cdc_connector_enabled` is `None` until
-- `resolve_cdc_connector` has run, if it is not set.
pub record Settings : Type 0 where
  pub sink : String
  pub cdc_connector_enabled : Option Bool
  pub kafka_produce_enabled : Bool
  pub kafka_seed_on_start : Bool
  pub database_url : Option String
  pub kafka_bootstrap_servers : Option String
  pub kafka_api_key : Option String
  pub kafka_api_secret : Option String
  pub schema_registry_url : Option String
  pub schema_registry_api_key : Option String
  pub schema_registry_api_secret : Option String
  pub kafka_topic_customers : String
  pub kafka_topic_accounts : String
  pub kafka_topic_transactions : String
  pub kafka_topic_agent_conversations : String
  pub graph_data_mode : String
  pub chat_first_prompt : String
  pub chat_data_mode : String
  pub chat_produce_conversations : Bool
  pub llm_base_url : Option String
  pub llm_model : Option String
  pub llm_api_key : String
  pub llm_temperature : Float
  pub analytics_data_mode : String
  pub confluent_cloud_api_key : Option String
  pub confluent_cloud_api_secret : Option String
  pub flink_api_key : Option String
  pub flink_api_secret : Option String
  pub flink_org_id : Option String
  pub flink_env_id : Option String
  pub flink_compute_pool_id : Option String
  pub flink_crm_compute_pool_id : Option String
  pub flink_rest_endpoint : Option String
  pub flink_catalog : Option String
  pub flink_database : Option String
  pub cloud_region : Option String
  pub cloud_provider : Option String
  pub kafka_cluster_id : Option String
  pub confluent_global_key : Option String
  pub confluent_global_secret : Option String

-- The truth value of an optional text and of an optional flag.
abbrev pub is_set : Option String → Bool
is_set none = false
is_set (some s) = truthy s

abbrev pub flag : Option Bool → Bool
flag none = false
flag (some b) = b

abbrev pub owns_cdc : Settings → Bool
owns_cdc s = flag s.cdc_connector_enabled

-- `hostname not in _LOCAL_HOSTS`
unfoldable pub is_remote : String → Bool
is_remote host = not (str_eq host "localhost" || str_eq host "127.0.0.1" || str_eq host "::1")

-- `urlparse(url).hostname`, of the standard library, is an argument.
module _ (hostname : String → Option String) where
  unfoldable pub host_owns_cdc : Option String → Bool
  unfolding is_remote
  host_owns_cdc none = false
  host_owns_cdc (some url) = if truthy url then is_remote (text_or_empty (hostname url)) else false

  -- `Settings._resolve_cdc_connector`, which runs after validation
  unfoldable pub resolve_cdc_connector : Settings → Settings
  unfolding host_owns_cdc
  resolve_cdc_connector s = elim s.cdc_connector_enabled [
    | none ↦ record s { cdc_connector_enabled = some (host_owns_cdc s.database_url) }
    | some b ↦ s
  ]

-- The texts, if all are set and none is empty: `all(parts)`.
unfoldable pub all_parts : List (Option String) → Option (List String)
all_parts [] = some []
all_parts (none ∷ parts) = none
all_parts (some p ∷ parts) =
    if truthy p then elim (all_parts parts) [ none ↦ none | some ps ↦ some (p ∷ ps) ] else none

abbrev concat : List String → String
concat [] = ""
concat (s ∷ ss) = str_append s (concat ss)

-- the f-string of `Settings.rtce_mcp_url`
abbrev url_of : List String → Option String
url_of (region ∷ provider ∷ org ∷ env ∷ cluster ∷ []) = some (
    concat (
      "https://mcp." ∷ region ∷ "." ∷ provider ∷ ".confluent.cloud"
      ∷ "/mcp/v1/context-engine/organizations/" ∷ org ∷ "/environments/" ∷ env ∷ "/kafka-clusters/"
      ∷ cluster ∷ []))
url_of _ = none

unfoldable pub rtce_mcp_url : Settings → Option String
unfolding all_parts
rtce_mcp_url s =
    elim (all_parts (
      s.cloud_region ∷ s.cloud_provider ∷ s.flink_org_id ∷ s.flink_env_id ∷ s.kafka_cluster_id
      ∷ [])) [ none ↦ none | some parts ↦ url_of parts ]
