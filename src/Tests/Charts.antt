-- ===== src/Tests/Charts.antt =====
-- The charts of a snapshot of four rows, a name with an apostrophe in a query, and a query that fails.
use stream_house_c360_demo.Prelude.{◌≡◌, refl, String, true, some, List, [], ◌∷◌, map, leb, length}
use stream_house_c360_demo.Inventory.Csv.{column, Row}
use stream_house_c360_demo.Analytics.{
  counts, label_of, total, by_country, counter, sorted, insert, bump,
}
use stream_house_c360_demo.Analytics.Providers.{sql_str}
use stream_house_c360_demo.Analytics.Providers.Quoting.{read_sql, sql_str-read_sql}
use stream_house_c360_demo.Analytics.Clients.{Driver}
use stream_house_c360_demo.Config.{Settings}
use stream_house_c360_demo.Tests.Samples.{settings_of}
use stream_house_c360_demo.Analytics.Totals.{occurrences, count_for, counts-total, by_country-total}

abbrev rows : List Row
rows =
    (("country", some "US") ∷ [])
    ∷ (("country", some "") ∷ [])
    ∷ (("country", some "FR") ∷ [])
    ∷ (("country", some "US") ∷ [])
    ∷ []

-- the larger count first, then by label
ordered : by_country rows ≡ ("US", 2) ∷ ("FR", 1) ∷ ("Unknown", 1) ∷ []
unfolding by_country counts counter sorted insert bump label_of column
ordered = refl

counts-total_example :
    (count_for "US" (counts rows "country" "Unknown")
      ≡ occurrences "US" (map (label_of "country" "Unknown") rows))
    × (total (counts rows "country" "Unknown") ≡ 4)
counts-total_example = counts-total rows "country" "Unknown" "US"

by_country-total_example : (total (by_country rows) ≡ 4) × (leb (length (by_country rows)) 9 ≡ true)
by_country-total_example = by_country-total rows

sql_str-read_sql_example : read_sql (sql_str "O'Brien") ≡ some ("O'Brien", "")
sql_str-read_sql_example = sql_str-read_sql "O'Brien"

-- a statement that fails on a connection
abbrev driver : Driver String
driver = record {
  succeeds = λ calls call. leb (length calls) 1;
  columns = λ calls. "country" ∷ [];
  rows = λ calls. [];
}

abbrev configured : Settings
configured = record (settings_of "postgres") {
  flink_org_id = some "org";
  flink_env_id = some "env";
  cloud_provider = some "aws";
  cloud_region = some "us-east-1";
  flink_compute_pool_id = some "lfcp-1";
  flink_api_key = some "key";
  flink_api_secret = some "secret";
  flink_database = some "c360";
  kafka_cluster_id = some "lkc";
}
