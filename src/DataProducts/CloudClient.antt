-- ===== src/DataProducts/CloudClient.antt =====
-- data_products/confluent_client.py: the REST client of Confluent Cloud. The answers of the three
-- APIs are an `Api`, any functions of the requests.
pub mod Pages
pub mod Costs
pub mod Failures
use Prim.Native.Char.{code}
use Prim.Native.String.{◌++◌ as str_append}
use stream_house_c360_demo.Prelude.{
  ℕ, zero, suc, String, Bool, true, false, not, ◌&&◌, Option, none, some, List, [], ◌∷◌, ◌++◌, map,
  str_eq, if◌then◌else◌, ◌==◌, truthy, text_or_empty,
}
use stream_house_c360_demo.Inventory.Fields.{◌>>=◌}
use stream_house_c360_demo.Config.{Settings, is_set}
use stream_house_c360_demo.DataProducts.Models.{Date}
use stream_house_c360_demo.DataProducts.Builder.{get, or_else, comes_after}
use stream_house_c360_demo.DataProducts.Descriptor.{put}
use stream_house_c360_demo.DataProducts.Providers.{Floats, Entry, Raw, no_metrics, Client, filled}

-- How a request ends: an answer, an `httpx.HTTPError` or a `ValueError`, or any other exception.
pub data Answer {ℓ} (A : Type ℓ) : Type ℓ where
  received : A → Answer A
  http_error crashed : Answer A

-- `_FLINK_PAGE_SIZE`, `_FLINK_MAX_PAGES` and `_COST_PAGE_SIZE`
abbrev pub flink_page_size : ℕ
flink_page_size = 100

abbrev pub flink_max_pages : ℕ
flink_max_pages = 100

abbrev pub cost_page_size : ℕ
cost_page_size = 10000

-- an item of the statements or of the materialized tables
pub record Item : Type 0 where
  pub name : Option String
  pub phase : Option String
  pub uid : Option String
  pub version : Option String
  pub statement : Option String
  pub query : Option String
  pub created_at : Option String

-- A page of a collection, or JSON that is no object.
pub data Page (A : Type 0) : Type 0 where
  page : List A → Option String → Page A
  no_object : Page A

-- a line item of the costs; the amount is `none` if it is no number
pub record LineItem (F : Type 0) : Type 0 where
  pub product : Option String
  pub resource_id : Option String
  pub amount : Option F

pub record Point (F : Type 0) : Type 0 where
  pub timestamp : String
  pub value : Option F

-- an entry of a grouped answer
pub record Group (F : Type 0) : Type 0 where
  pub statement_name : Option String
  pub points : List (Point F)
  pub value : Option F

pub data Filter : Type 0 where
  equals : String → String → Filter
  all_of : List (String × String) → Filter

-- the body of a metrics query, the fixed fields aside
pub record Query : Type 0 where
  pub metric : String
  pub filter : Filter
  pub interval : String

-- The parameters go with the first page only.
pub record Api (F : Type 0) : Type 0 where
  pub get_flink : Option ℕ → String → Answer (Page Item)
  pub get_costs : Option (Date × Date × ℕ) → String → Answer (Page (LineItem F))
  pub post_query : Query → Answer (List (Point F))
  pub post_grouped : Query → Answer (List (Group F))

abbrev pub then_ {ℓ κ} : {A : Type ℓ} {B : Type κ} → Answer A → (A → Answer B) → Answer B
then_ (received a) f = f a
then_ http_error f = http_error
then_ crashed f = crashed

-- `except (httpx.HTTPError, ValueError): return d`; any other exception goes through.
abbrev pub caught {ℓ} : {A : Type ℓ} → A → Answer A → Option A
caught d (received a) = some a
caught d http_error = some d
caught d crashed = none

-- A query that is isolated by its own `try`: if it fails the metrics stay as they are.
abbrev pub isolated {ℓ} :
    {F : Type 0} {A : Type ℓ} → Answer A → (A → Raw F → Raw F) → Raw F → Option (Raw F)
isolated (received a) f raw = some (f a raw)
isolated http_error f raw = some raw
isolated crashed f raw = none

-- what the loop of `_get_flink_collection` does with a page; `again` goes on to the next one
abbrev pub after_page :
    (Option String → List Item → Answer (List Item))
    → List Item
    → Answer (Page Item)
    → Answer (List Item)
after_page again items (received (page more next)) = again next (items ++ more)
after_page again items (received no_object) = received items
after_page again items http_error = http_error
after_page again items crashed = crashed

-- `s.rstrip("/")`
abbrev pub rstrip_slash : String → String
rstrip_slash String.[] = ""
rstrip_slash (String.◌∷◌ c s) =
    let rest = rstrip_slash s in
    if str_eq rest "" && (code c == b'/') then "" else String.◌∷◌ c rest

abbrev pub cost_api_url : String
cost_api_url = "https://api.confluent.cloud/billing/v1/costs"

-- `_MT_UID_DIMENSION`, `_RECORDS_IN_METRIC` and `_RECORDS_OUT_METRIC`
abbrev pub mt_uid_dimension : String
mt_uid_dimension = "resource.flink_materialized_table.uid"

abbrev pub records_in_metric : String
records_in_metric = "io.confluent.flink/num_records_in"

abbrev pub records_out_metric : String
records_out_metric = "io.confluent.flink/num_records_out"

abbrev pub mt_cfus_metric : String
mt_cfus_metric = "io.confluent.flink/materialized_table_utilization/current_cfus"

abbrev pub pool_cfus_metric : String
pool_cfus_metric = "io.confluent.flink/compute_pool_utilization/current_cfus"

-- `_recent_interval`, of the clock, is an argument.
module _ {F : Type 0} (floats : Floats F) (api : Api F) (s : Settings) (interval : String) where
  -- the loop of `_get_flink_collection`, with the pages that it may still ask for
  unfoldable pub collect : ℕ → Option ℕ → Option String → List Item → Answer (List Item)
  collect zero params next items = received items
  collect (suc pages) params next items = elim (filled next) [
    | none ↦ received items
    | some url ↦ after_page (collect pages none) items (api.get_flink params url)
  ]

  -- `_get_flink_collection`
  unfoldable pub get_flink_collection : String → Answer (List Item)
  get_flink_collection url = collect flink_max_pages (some flink_page_size) (some url) []

  unfoldable pub has_flink : Bool
  has_flink =
      is_set s.flink_rest_endpoint
      && is_set s.flink_api_key
      && is_set s.flink_api_secret
      && is_set s.flink_org_id
      && is_set s.flink_env_id

  unfoldable pub flink_url : String → String
  flink_url collection = str_append (rstrip_slash (text_or_empty s.flink_rest_endpoint)) (
      str_append "/sql/v1/organizations/" (
        str_append (text_or_empty s.flink_org_id) (
          str_append "/environments/"
            (str_append (text_or_empty s.flink_env_id) (str_append "/" collection)))))

  abbrev pub put_if_both :
      Option String → Option String → List (String × String) → List (String × String)
  put_if_both (some name) (some phase) phases = put name phase phases
  put_if_both _ _ phases = phases

  unfoldable pub phases_into : List Item → List (String × String) → List (String × String)
  phases_into [] phases = phases
  phases_into (item ∷ more) phases =
      phases_into more (put_if_both (filled item.name) (filled item.phase) phases)

  unfoldable pub list_statement_phases : Option (List (String × String))
  list_statement_phases =
      if has_flink
      then caught [] (
          then_ (get_flink_collection (flink_url "statements"))
            (λ items. received (phases_into items [])))
      else some []

  -- an item of the statements; the SQL of a table is its query
  abbrev pub statement_entry : Item → Entry
  statement_entry item = record {
    phase = item.phase;
    uid = item.uid;
    version = none;
    sql = item.statement;
    created_at = item.created_at;
  }

  abbrev pub table_entry : Item → Entry
  table_entry item = record {
    phase = item.phase;
    uid = item.uid;
    version = item.version;
    sql = item.query;
    created_at = item.created_at;
  }

  -- the entries of the items that have a name
  unfoldable pub entries_into :
      (Item → Entry) → List Item → List (String × Entry) → List (String × Entry)
  entries_into entry [] entries = entries
  entries_into entry (item ∷ more) entries =
      entries_into entry more
        (elim (filled item.name) [ none ↦ entries | some name ↦ put name (entry item) entries ])

  abbrev pub list_entries : (Item → Entry) → String → Option (List (String × Entry))
  list_entries entry collection =
      if has_flink
      then caught [] (
          then_ (get_flink_collection (flink_url collection))
            (λ items. received (entries_into entry items [])))
      else some []

  unfoldable pub list_statements : Option (List (String × Entry))
  list_statements = list_entries statement_entry "statements"

  unfoldable pub list_materialized_tables : Option (List (String × Entry))
  list_materialized_tables = list_entries table_entry "materialized-tables"

  abbrev pub filter_of : List (String × String) → Filter
  filter_of ((field, value) ∷ []) = equals field value
  filter_of filters = all_of filters

  abbrev pub query_of : String → List (String × String) → Query
  query_of metric filters = record {
    metric = metric;
    filter = filter_of filters;
    interval = interval;
  }

  -- `max(points, key=timestamp)`: the first of the latest
  abbrev pub latest_from : Point F → List (Point F) → Point F
  latest_from best [] = best
  latest_from best (p ∷ more) =
      latest_from (if comes_after p.timestamp best.timestamp then p else best) more

  unfoldable pub latest_value : List (Point F) → Option F
  latest_value [] = none
  latest_value (p ∷ more) = (latest_from p more).value

  -- `_query_latest_value`
  unfoldable pub query_latest_value : String → List (String × String) → Answer (Option F)
  query_latest_value metric filters =
      then_ (api.post_query (query_of metric filters)) (λ points. received (latest_value points))

  -- `_latest_point_value`
  abbrev pub latest_point_value : List (Point F) → Option F → Option F
  latest_point_value [] value = value
  latest_point_value (p ∷ more) value = latest_value (p ∷ more)

  abbrev pub put_value : Option String → Option F → List (String × F) → List (String × F)
  put_value (some name) (some value) values = put name value values
  put_value _ _ values = values

  unfoldable pub values_into : List (Group F) → List (String × F) → List (String × F)
  values_into [] values = values
  values_into (g ∷ more) values =
      values_into more
        (put_value (filled g.statement_name) (latest_point_value g.points g.value) values)

  -- `_query_statement_metric_grouped`
  unfoldable pub query_statement_metric_grouped : String → String → Answer (List (String × F))
  query_statement_metric_grouped metric pool =
      then_ (api.post_grouped (query_of metric (("resource.compute_pool.id", pool) ∷ [])))
        (λ groups. received (values_into groups []))

  abbrev pub has_cloud : Bool
  has_cloud = is_set s.confluent_cloud_api_key && is_set s.confluent_cloud_api_secret

  -- the value of one statement, if the grouped answer has it
  abbrev pub pending_of : String → List (String × F) → Raw F → Raw F
  pending_of name values raw = elim (get name values) [
    | none ↦ raw
    | some v ↦ record raw { pending_records = some (floats.truncated v) }
  ]

  abbrev pub in_rate_of : Option F → Raw F → Raw F
  in_rate_of none raw = raw
  in_rate_of (some v) raw = record raw { messages_in_per_sec = some (floats.per_second v) }

  abbrev pub out_rate_of : Option F → Raw F → Raw F
  out_rate_of none raw = raw
  out_rate_of (some v) raw = record raw { messages_out_per_sec = some (floats.per_second v) }

  abbrev pub cfu_of : Option F → Raw F → Raw F
  cfu_of none raw = raw
  cfu_of (some v) raw = record raw { compute_pool_cfu = some v }

  unfoldable pub statement_queries : String → String → Option (Raw F)
  statement_queries name pool = do
    pending ←
        isolated (query_statement_metric_grouped "io.confluent.flink/pending_records" pool)
          (pending_of name) no_metrics
    with_cfu ←
        isolated (query_latest_value pool_cfus_metric (("resource.compute_pool.id", pool) ∷ []))
          cfu_of pending
    with_in ←
        isolated (query_statement_metric_grouped records_in_metric pool)
          (λ values. in_rate_of (get name values)) with_cfu
    isolated (query_statement_metric_grouped records_out_metric pool)
        (λ values. out_rate_of (get name values)) with_in

  unfoldable pub get_statement_metrics : String → Option String → Option (Raw F)
  get_statement_metrics name compute_pool_id =
      let pool = or_else compute_pool_id s.flink_compute_pool_id in
      if has_cloud && is_set pool
      then statement_queries name (text_or_empty pool)
      else some no_metrics

  unfoldable pub records_rates : List (String × String) → Raw F → Option (Raw F)
  records_rates scope raw = do
    with_in ← isolated (query_latest_value records_in_metric scope) in_rate_of raw
    isolated (query_latest_value records_out_metric scope) out_rate_of with_in

  unfoldable pub table_queries : List (String × String) → Option (Raw F)
  table_queries scope = do
    raw ← isolated (query_latest_value mt_cfus_metric scope) cfu_of no_metrics
    records_rates scope raw

  unfoldable pub get_materialized_table_metrics : String → Option String → Option (Raw F)
  get_materialized_table_metrics mt_uid compute_pool_id =
      let pool = or_else compute_pool_id s.flink_compute_pool_id in
      if has_cloud && is_set pool && truthy mt_uid
      then table_queries
          (("resource.compute_pool.id", text_or_empty pool) ∷ (mt_uid_dimension, mt_uid) ∷ [])
      else some no_metrics

  abbrev pub is_flink : Option String → Bool
  is_flink none = false
  is_flink (some product) = str_eq product "FLINK"

  abbrev pub or_zero : Option F → F
  or_zero none = floats.hundredths 0
  or_zero (some f) = f

  -- the line items of a page; `none` is a `ValueError` of `float`
  unfoldable pub add_items : List (LineItem F) → List (String × F) → Option (List (String × F))
  add_items [] totals = some totals
  add_items (item ∷ more) totals =
      elim (if is_flink item.product then filled item.resource_id else none) [
        | none ↦ add_items more totals
        | some pool ↦ elim item.amount [
          | none ↦ none
          | some amount ↦
              add_items more (put pool (floats.plus (or_zero (get pool totals)) amount) totals)
        ]
      ]

  -- what the loop of `get_flink_pool_costs` does with a page; `again` goes on to the next one
  abbrev pub after_costs :
      (Option String → List (String × F) → Option (Answer (List (String × F))))
      → List (String × F)
      → Answer (Page (LineItem F))
      → Option (Answer (List (String × F)))
  after_costs again totals (received (page items next)) = elim (add_items items totals) [
    | none ↦ some http_error
    | some totals' ↦ again next totals'
  ]
  after_costs again totals (received no_object) = some (received totals)
  after_costs again totals http_error = some http_error
  after_costs again totals crashed = some crashed

  -- The loop on fuel; `none` if the fuel is used up before the loop ends.
  unfoldable pub cost_pages :
      ℕ
      → Option (Date × Date × ℕ)
      → Option String
      → List (String × F)
      → Option (Answer (List (String × F)))
  cost_pages zero params next totals = elim (filled next) [
    | none ↦ some (received totals)
    | some url ↦ none
  ]
  cost_pages (suc fuel) params next totals = elim (filled next) [
    | none ↦ some (received totals)
    | some url ↦ after_costs (cost_pages fuel none) totals (api.get_costs params url)
  ]

  unfoldable pub get_flink_pool_costs : ℕ → Date → Date → Option (Option (List (String × F)))
  get_flink_pool_costs fuel start end =
      if has_cloud
      then elim (cost_pages fuel (some (start, end, cost_page_size)) (some cost_api_url) []) [
        | none ↦ none
        | some answer ↦ some (caught [] answer)
      ]
      else some (some [])

  unfoldable pub get_compute_pool_cfu : String → Option (Option F)
  get_compute_pool_cfu pool =
      if has_cloud && truthy pool
      then caught none
          (query_latest_value pool_cfus_metric (("resource.compute_pool.id", pool) ∷ []))
      else some none

  -- `ConfluentClient`, given what the loop over the costs returns
  unfoldable pub cloud_client : (Date → Date → Option (List (String × F))) → Client F
  cloud_client costs = record {
    list_statement_phases = list_statement_phases;
    list_statements = list_statements;
    list_materialized_tables = list_materialized_tables;
    get_statement_metrics = get_statement_metrics;
    get_materialized_table_metrics = get_materialized_table_metrics;
    get_flink_pool_costs = costs;
    get_compute_pool_cfu = get_compute_pool_cfu;
  }
