-- ===== src/Tests/Products.antt =====
-- A manifest with two products, their descriptors, and what is answered about them.
use Prim.Native.Nat.{◌/◌}
use Prim.Native.String.{String}
use stream_house_c360_demo.Prelude.{
  ◌*◌, ◌+◌, ℕ, ◌≡◌, refl, Bool, true, false, Option, none, some, List, [], ◌∷◌, map, All, ltb,
}
use stream_house_c360_demo.Prelude.Int.{pos}
use stream_house_c360_demo.DataProducts.Models.{
  statement, Graph, Date, GraphNode, statement, streaming_table,
}
use stream_house_c360_demo.DataProducts.Builder.{Model, Manifest, build_graph}
use stream_house_c360_demo.DataProducts.Builder.Connected.{Joins, build_graph-Joins}
use stream_house_c360_demo.DataProducts.Descriptor.{
  Descriptor, Value, describe, load_descriptors, get_graph,
}
use stream_house_c360_demo.DataProducts.Descriptor.Reading.{get_graph-describe}
use stream_house_c360_demo.DataProducts.Providers.{Floats, Client, get_status, get_metrics}
use stream_house_c360_demo.DataProducts.Providers.Mock.{get_provider, live_provider}
use stream_house_c360_demo.DataProducts.Providers.Status.{phase_in, get_metrics-phase}
use stream_house_c360_demo.DataProducts.Service.{
  graph_route, status_route, cost_route, metrics_route,
}
use stream_house_c360_demo.DataProducts.Service.Routes.{status_code, routes-status_code}

abbrev model : String → String → List String → Model
model name path depends_on = record {
  resource_type = "model";
  name = name;
  path = path;
  materialized = some "streaming_table";
  compute_pool_id = some "lfcp-1";
  depends_on = depends_on;
}

abbrev manifest : Manifest
manifest = record {
  nodes =
      ("m.src", model "src_customers" "c360/sources/src_customers.sql" ("s.customers" ∷ []))
      ∷ (
        "m.fct",
        model "fct_profile" "c360/facts/fct_profile.sql" ("m.src" ∷ "m.crm" ∷ "m.gone" ∷ []),
      )
      ∷ ("m.crm", model "crm_counts" "crm/facts/crm_counts.sql" [])
      ∷ [];
  sources =
      ("s.customers", record { name = "customers"; identifier = "cdc.public.customers" }) ∷ [];
}

abbrev named : String → String
named name = name

abbrev pool_for : Model → Option String
pool_for m = m.compute_pool_id

abbrev c360 : Graph
c360 = build_graph named pool_for none manifest "c360"

build_graph-Joins_example : All (Joins c360.nodes) c360.edges
build_graph-Joins_example = build_graph-Joins named pool_for none manifest "c360"

abbrev lax : Value → Option Bool
lax v = none

abbrev products : List (String × Graph)
products = ("c360", c360) ∷ ("crm", build_graph named pool_for none manifest "crm") ∷ []

get_graph-describe_example :
    get_graph lax (load_descriptors (map (describe named) products)) "c360" ≡ some (some c360)
get_graph-describe_example = get_graph-describe lax named "c360" products

-- floats that are hundredths
abbrev pub sum_of : List ℕ → ℕ
sum_of [] = 0
sum_of (n ∷ more) = n + sum_of more

abbrev pub is_positive : ℕ → Bool
is_positive n = ltb 0 n

abbrev pub floats : Floats ℕ
floats = record {
  sum = sum_of;
  round_cents = λ n. n;
  is_positive = is_positive;
  is_nonzero = is_positive;
  hundredths = λ n. n;
  times = λ m n. m * n / 100;
  plus = λ m n. m + n;
  per_second = λ n. n / 60;
  truncated = λ n. pos (n / 100);
}

-- The phases of the statements are known, and nothing else is.
abbrev client : Client ℕ
client = record {
  list_statement_phases = some (("src_customers", "RUNNING") ∷ ("fct_profile", "DEGRADED") ∷ []);
  list_statements = none;
  list_materialized_tables = none;
  get_statement_metrics = λ name pool. none;
  get_materialized_table_metrics = λ uid pool. none;
  get_flink_pool_costs = λ start end. some (("lfcp-1", 1250) ∷ []);
  get_compute_pool_cfu = λ pool. none;
}

abbrev instant_of : String → Option ℕ
instant_of s = none

abbrev pub today : Date
today = record { year = 2026; month = 5; day = 17 }

abbrev node : GraphNode
node = record {
  id = "fct_profile";
  type = statement;
  label = "fct_profile";
  statement_name = some "dbt-fct-profile";
  topic = some "fct_profile";
  is_product = true;
  table_type = some streaming_table;
  compute_pool_id = some "lfcp-1";
  external = false;
}

abbrev small : Graph
small = record { nodes = node ∷ []; edges = [] }

-- a minute later the costs fail, but not the list of phases
abbrev later : Client ℕ
later = record client { get_flink_pool_costs = λ start end. none }

get_metrics-phase_example :
    phase_in floats client instant_of 1000 today "fct_profile"
      (get_status floats client instant_of 1000 today small).statements
    ≡ some (get_metrics floats later instant_of 61000 today small "fct_profile").phase
get_metrics-phase_example =
    get_metrics-phase floats client later instant_of 1000 61000 today small "fct_profile" node refl
      refl refl refl

abbrev files : List (String × Descriptor)
files = load_descriptors (map (describe named) (("c360", small) ∷ []))

routes-status_code_example :
    (status_code (graph_route lax files floats client instant_of 1000 today "live" "c360") ≡ 200)
    × (status_code (status_route lax files floats client instant_of 1000 today "live" "c360") ≡ 200)
    × (status_code (cost_route lax files floats client instant_of 1000 today "live" "c360") ≡ 200)
    × (status_code
          (metrics_route lax files floats client instant_of 1000 today "live" "c360" "src_orders")
        ≡ 404)
unfolding get_provider
routes-status_code_example =
    routes-status_code lax named (("c360", small) ∷ []) floats client instant_of 1000 today "live"
      "c360" "src_orders" live_provider refl
