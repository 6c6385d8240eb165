-- ===== src/DataProducts/CloudClient/Failures.antt =====
-- No method of the client raises on an HTTP error or on an answer that is not JSON.
use stream_house_c360_demo.Prelude.{
  ℕ, zero, suc, String, ◌≡◌, refl, sym, Bool, true, false, Option, none, some, List, [], ◌∷◌, ◌++◌,
  is_some, Option-cases, inl, inr, if◌then◌else◌, text_or_empty,
}
use stream_house_c360_demo.Inventory.Fields.{◌>>=◌}
use stream_house_c360_demo.Config.{Settings}
use stream_house_c360_demo.DataProducts.Models.{Date}
use stream_house_c360_demo.DataProducts.Builder.{or_else}
use stream_house_c360_demo.DataProducts.Providers.{Floats, Raw, no_metrics, filled}
use stream_house_c360_demo.DataProducts.CloudClient.{
  table_entry, statement_entry, entries_into, records_out_metric, records_in_metric, phases_into,
  pool_cfus_metric, flink_url, mt_cfus_metric, flink_page_size, values_into, latest_value, query_of,
  after_page, flink_max_pages, Answer, received, http_error, crashed, Item, Page, page, no_object,
  Query, Api, then_, caught, collect, get_flink_collection, list_statement_phases, list_statements,
  list_materialized_tables, query_latest_value, query_statement_metric_grouped, isolated,
  statement_queries, get_statement_metrics, records_rates, table_queries,
  get_materialized_table_metrics, get_compute_pool_cfu, cloud_client, has_flink,
}

abbrev pub crashes : {A : Type 0} → Answer A → Bool
crashes crashed = true
crashes _ = false

-- Requests fail by HTTP errors and value errors only.
pub record FailsByHttp {F : Type 0} (api : Api F) : Type 0 where
  pub get_flink : (params : Option ℕ) (url : String) → crashes (api.get_flink params url) ≡ false
  pub post_query : (q : Query) → crashes (api.post_query q) ≡ false
  pub post_grouped : (q : Query) → crashes (api.post_grouped q) ≡ false

then_-crashes :
    {A B : Type 0} (a : Answer A) (f : A → B)
    → crashes a ≡ false
    → crashes (then_ a (λ x. received (f x))) ≡ false
then_-crashes (received x) f h = refl
then_-crashes http_error f h = refl
then_-crashes crashed f h = h

caught-is_some :
    {A : Type 0} (d : A) (a : Answer A) → crashes a ≡ false → is_some (caught d a) ≡ true
caught-is_some d (received a) h = refl
caught-is_some d http_error h = refl
caught-is_some d crashed h = sym h

isolated->>= :
    {F A : Type 0} (a : Answer A) (f : A → Raw F → Raw F) (raw : Raw F) (k : Raw F → Option (Raw F))
    → crashes a ≡ false
    → ((r : Raw F) → is_some (k r) ≡ true)
    → is_some (isolated a f raw >>= k) ≡ true
isolated->>= (received a) f raw k h hk = hk (f a raw)
isolated->>= http_error f raw k h hk = hk raw
isolated->>= crashed f raw k h hk = sym h

isolated-is_some :
    {F A : Type 0} (a : Answer A) (f : A → Raw F → Raw F) (raw : Raw F)
    → crashes a ≡ false
    → is_some (isolated a f raw) ≡ true
isolated-is_some (received a) f raw h = refl
isolated-is_some http_error f raw h = refl
isolated-is_some crashed f raw h = sym h

module _ {F : Type 0} (floats : Floats F) (api : Api F) (s : Settings) (interval : String)
    (law : FailsByHttp api) where
  after_page-crashes :
      (again : Option String → List Item → Answer (List Item)) (items : List Item)
      (a : Answer (Page Item))
      → ((next : Option String) (seen : List Item) → crashes (again next seen) ≡ false)
      → crashes a ≡ false
      → crashes (after_page again items a) ≡ false
  after_page-crashes again items (received (page more next)) h e = h next (items ++ more)
  after_page-crashes again items (received no_object) h e = refl
  after_page-crashes again items http_error h e = refl
  after_page-crashes again items crashed h e = e

  collect-crashes :
      (fuel : ℕ) (params : Option ℕ) (next : Option String) (items : List Item)
      → crashes (collect floats api s interval fuel params next items) ≡ false
  unfolding collect
  collect-crashes zero params next items = refl
  collect-crashes (suc fuel) params next items = elim (Option-cases (filled next)) [
    | inl e ↦ rw (collect, e) refl
    | inr (url, e) ↦
        rw (collect, e)
          (after_page-crashes (collect floats api s interval fuel none) items
            (api.get_flink params url) (collect-crashes fuel none) (law.get_flink params url))
  ]

  if-is_some :
      {A : Type 0} (b : Bool) (x y : Option A)
      → is_some x ≡ true
      → is_some y ≡ true
      → is_some (if b then x else y) ≡ true
  if-is_some true x y hx hy = hx
  if-is_some false x y hx hy = hy

  collection-is_some :
      {A : Type 0} (b : Bool) (url : String) (f : List Item → List A)
      → is_some (
          if b
          then caught []
              (then_ (get_flink_collection floats api s interval url) (λ items. received (f items)))
          else some [])
        ≡ true
  unfolding get_flink_collection
  collection-is_some b url f =
      if-is_some b _ (some [])
        (caught-is_some [] _ (
          then_-crashes (get_flink_collection floats api s interval url) f
            (collect-crashes flink_max_pages (some flink_page_size) (some url) [])))
        refl

  latest-crashes :
      (metric : String) (filters : List (String × String))
      → crashes (query_latest_value floats api s interval metric filters) ≡ false
  unfolding query_latest_value
  latest-crashes metric filters =
      then_-crashes (api.post_query (query_of floats api s interval metric filters))
        (latest_value floats api s interval)
        (law.post_query (query_of floats api s interval metric filters))

  grouped-crashes :
      (metric pool : String)
      → crashes (query_statement_metric_grouped floats api s interval metric pool) ≡ false
  unfolding query_statement_metric_grouped
  grouped-crashes metric pool =
      let q = query_of floats api s interval metric (("resource.compute_pool.id", pool) ∷ []) in
      then_-crashes (api.post_grouped q) (λ groups. values_into floats api s interval groups [])
        (law.post_grouped q)

  statement_queries-is_some :
      (name pool : String) → is_some (statement_queries floats api s interval name pool) ≡ true
  unfolding statement_queries
  statement_queries-is_some name pool =
      isolated->>=
        (query_statement_metric_grouped floats api s interval "io.confluent.flink/pending_records"
          pool)
        _ no_metrics _ (grouped-crashes "io.confluent.flink/pending_records" pool)
        λ pending.
          isolated->>=
            (query_latest_value floats api s interval pool_cfus_metric
              (("resource.compute_pool.id", pool) ∷ []))
            _ pending _ (latest-crashes pool_cfus_metric (("resource.compute_pool.id", pool) ∷ []))
            λ with_cfu.
              isolated->>=
                (query_statement_metric_grouped floats api s interval records_in_metric pool) _
                with_cfu _ (grouped-crashes records_in_metric pool)
                λ with_in.
                  isolated-is_some
                    (query_statement_metric_grouped floats api s interval records_out_metric pool) _
                    with_in (grouped-crashes records_out_metric pool)

  table_queries-is_some :
      (scope : List (String × String)) → is_some (table_queries floats api s interval scope) ≡ true
  unfolding table_queries records_rates
  table_queries-is_some scope =
      isolated->>= (query_latest_value floats api s interval mt_cfus_metric scope) _ no_metrics _
        (latest-crashes mt_cfus_metric scope)
        λ raw.
          isolated->>= (query_latest_value floats api s interval records_in_metric scope) _ raw _
            (latest-crashes records_in_metric scope)
            λ with_in.
              isolated-is_some (query_latest_value floats api s interval records_out_metric scope) _
                with_in (latest-crashes records_out_metric scope)

  -- If requests fail by HTTP errors and by value errors only, no method of the client raises, but
  -- for the loop over the costs.
  pub cloud_client-Returns :
      (costs : Date → Date → Option (List (String × F)))
      → let client = cloud_client floats api s interval costs in
        (is_some client.list_statement_phases ≡ true)
        × (is_some client.list_statements ≡ true)
        × (is_some client.list_materialized_tables ≡ true)
        × ((name : String) (pool : Option String)
            → is_some (client.get_statement_metrics name pool) ≡ true)
        × ((uid : String) (pool : Option String)
            → is_some (client.get_materialized_table_metrics uid pool) ≡ true)
        × ((pool : String) → is_some (client.get_compute_pool_cfu pool) ≡ true)
  unfolding cloud_client list_statement_phases list_statements list_materialized_tables
      get_statement_metrics get_materialized_table_metrics get_compute_pool_cfu
  cloud_client-Returns costs = (
    collection-is_some (has_flink floats api s interval)
        (flink_url floats api s interval "statements")
        (λ items. phases_into floats api s interval items []),
    collection-is_some (has_flink floats api s interval)
        (flink_url floats api s interval "statements")
        (λ items.
          entries_into floats api s interval (statement_entry floats api s interval) items []),
    collection-is_some (has_flink floats api s interval)
        (flink_url floats api s interval "materialized-tables")
        (λ items. entries_into floats api s interval (table_entry floats api s interval) items []),
    λ name pool.
        if-is_some _ _ (some no_metrics)
          (statement_queries-is_some name (text_or_empty (or_else pool s.flink_compute_pool_id)))
          refl,
    λ uid pool. if-is_some _ _ (some no_metrics) (table_queries-is_some _) refl,
    λ pool.
        if-is_some _ _ (some none)
          (caught-is_some none _
            (latest-crashes pool_cfus_metric (("resource.compute_pool.id", pool) ∷ [])))
          refl,
  )
