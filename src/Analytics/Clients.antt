-- ===== src/Analytics/Clients.antt =====
-- analytics/confluent_sql_client.py and analytics/lightning_client.py: one query, best effort. A row
-- is an association list of columns and values `V`. The driver and the API are arguments.
pub mod Closed
use Prim.Native.String.{◌++◌ as str_append}
use stream_house_c360_demo.Prelude.{
  ℕ, String, Bool, true, false, not, ◌&&◌, Option, none, some, List, [], ◌∷◌, ◌++◌, map, keep,
  if◌then◌else◌, truthy, text_or_empty,
}
use stream_house_c360_demo.Config.{Settings, is_set}
use stream_house_c360_demo.DbSink.{concat}

abbrev pub Row : Type 0 → Type 0
Row V = List (String × V)

-- `dict(zip(columns, row))`, of columns that are all different
unfoldable pub zip_row : {V : Type 0} → List String → List V → Row V
zip_row (c ∷ columns) (v ∷ values) = (c, v) ∷ zip_row columns values
zip_row _ _ = []

abbrev pub unset : List (String × Option String) → List String
unset [] = []
unset ((name, value) ∷ more) = if is_set value then unset more else name ∷ unset more

-- `ConfluentSqlClient._missing_settings`
unfoldable pub missing_sql_settings : Settings → List String
missing_sql_settings s = unset (
    ("FLINK_ORG_ID", s.flink_org_id)
    ∷ ("FLINK_ENV_ID", s.flink_env_id)
    ∷ ("CLOUD_PROVIDER", s.cloud_provider)
    ∷ ("CLOUD_REGION", s.cloud_region)
    ∷ ("FLINK_COMPUTE_POOL_ID", s.flink_compute_pool_id)
    ∷ ("FLINK_API_KEY", s.flink_api_key)
    ∷ ("FLINK_API_SECRET", s.flink_api_secret)
    ∷ ("FLINK_DATABASE", s.flink_database)
    ∷ ("KAFKA_CLUSTER_ID", s.kafka_cluster_id)
    ∷ [])

-- the calls of the driver
pub data Call : Type 0 where
  connect open_cursor : Call
  execute : String → Call
  fetch_all close_cursor close_connection : Call

-- Whether a call succeeds, and the columns and rows that it fetches.
pub record Driver (V : Type 0) : Type 0 where
  pub succeeds : List Call → Call → Bool
  pub columns : List Call → List String
  pub rows : List Call → List (List V)

module _ {V : Type 0} (driver : Driver V) (settings : Settings) where
  abbrev pub Run : Type 0
  Run = Option (List (Row V)) × List Call

  -- a call, and what follows if it succeeds; `none` is an exception
  abbrev pub call : Call → (List Call → Run) → List Call → Run
  call c next calls = if driver.succeeds calls c then next (c ∷ calls) else (none, c ∷ calls)

  -- the rows with the columns of the cursor's description
  abbrev pub fetched : List Call → Run
  fetched calls = (some (map (zip_row (driver.columns calls)) (driver.rows calls)), calls)

  -- the `finally` of the cursor: an exception of `close` takes the place of the result
  abbrev pub close_after : Run → Run
  close_after (result, calls) =
      (if driver.succeeds calls close_cursor then result else none, close_cursor ∷ calls)

  abbrev pub on_cursor : String → List Call → Run
  on_cursor sql calls = close_after (call (execute sql) (call fetch_all fetched) calls)

  abbrev pub or_no_rows : Option (List (Row V)) → List (Row V)
  or_no_rows none = []
  or_no_rows (some rows) = rows

  -- What runs on a connection; it is closed in the end, and an exception of that is dropped.
  abbrev pub on_connection : String → List Call → List (Row V) × List Call
  on_connection sql calls =
      let (result, calls') = call open_cursor (on_cursor sql) calls in
      (or_no_rows result, close_connection ∷ calls')

  unfoldable pub connect_and_query : String → List Call → List (Row V) × List Call
  connect_and_query sql calls =
      if driver.succeeds calls connect
      then on_connection sql (connect ∷ calls)
      else ([], connect ∷ calls)

  abbrev pub if_none_missing :
      List String → List (Row V) × List Call → List Call → List (Row V) × List Call
  if_none_missing [] run calls = run
  if_none_missing (name ∷ more) run calls = ([], calls)

  -- `ConfluentSqlClient.query`
  unfoldable pub query : String → List Call → List (Row V) × List Call
  query sql calls =
      if_none_missing (missing_sql_settings settings) (connect_and_query sql calls) calls

-- `LightningClient._missing_settings`
unfoldable pub missing_lightning_settings : Settings → List String
missing_lightning_settings s = unset (
    ("CLOUD_REGION", s.cloud_region)
    ∷ ("CLOUD_PROVIDER", s.cloud_provider)
    ∷ ("FLINK_ENV_ID", s.flink_env_id)
    ∷ ("KAFKA_CLUSTER_ID", s.kafka_cluster_id)
    ∷ ("CONFLUENT_GLOBAL_KEY", s.confluent_global_key)
    ∷ ("CONFLUENT_GLOBAL_SECRET", s.confluent_global_secret)
    ∷ [])

-- `_endpoint`
unfoldable pub endpoint : Settings → String
endpoint s = concat (
    "https://sql."
    ∷ text_or_empty s.cloud_region
    ∷ "."
    ∷ text_or_empty s.cloud_provider
    ∷ ".confluent.cloud/query/v1alpha1"
    ∷ [])

-- The body of a request, and of an answer: the names of the schema's columns, and the rows (`data`), where an
-- element that is no list is `none`.
pub record LightningQuery : Type 0 where
  pub catalog_name : String
  pub database_name : String
  pub query : String
  pub max_result_rows : ℕ

pub record LightningAnswer (V : Type 0) : Type 0 where
  pub columns : List (Option String)
  pub rows : List (Option (List V))

-- `lower` is `str.lower`; `post` answers `none` on an HTTP error or a body that is not JSON.
module _ {V : Type 0} (lower : String → String)
    (post : String → LightningQuery → Option (LightningAnswer V)) where
  abbrev pub named_columns : List (Option String) → List String
  named_columns [] = []
  named_columns (none ∷ more) = named_columns more
  named_columns (some c ∷ more) =
      if truthy c then lower c ∷ named_columns more else named_columns more

  abbrev pub or_fallback : List String → List String → List String
  or_fallback [] fallback = map lower fallback
  or_fallback (c ∷ columns) fallback = c ∷ columns

  abbrev pub zip_lists : List String → List (Option (List V)) → List (Row V)
  zip_lists columns [] = []
  zip_lists columns (none ∷ more) = zip_lists columns more
  zip_lists columns (some row ∷ more) = zip_row columns row ∷ zip_lists columns more

  -- `_rows`
  unfoldable pub rows_of : LightningAnswer V → List String → List (Row V)
  rows_of payload fallback =
      zip_lists (or_fallback (named_columns payload.columns) fallback) payload.rows

  abbrev pub rows_or_none : Option (LightningAnswer V) → List String → List (Row V)
  rows_or_none none fallback = []
  rows_or_none (some payload) fallback = rows_of payload fallback

  -- `LightningClient.query`
  unfoldable pub lightning_query : Settings → String → List String → ℕ → List (Row V)
  lightning_query s sql fallback max_rows = elim (missing_lightning_settings s) [
    | [] ↦
        rows_or_none
          (post (endpoint s) (record {
            catalog_name = text_or_empty s.flink_env_id;
            database_name = text_or_empty s.kafka_cluster_id;
            query = sql;
            max_result_rows = max_rows;
          }))
          fallback
    | name ∷ more ↦ []
  ]
