-- ===== src/DataProducts/Providers/Mock.antt =====
-- data_products/mock_data.py, MockProvider and get_provider of data_products/providers.py.
use stream_house_c360_demo.Prelude.{
  ℕ, String, Bool, true, false, not, ◌&&◌, Option, none, some, List, [], ◌∷◌, map, str_eq,
  if◌then◌else◌, keep,
}
use stream_house_c360_demo.Prelude.Int.{pos}
use stream_house_c360_demo.Prelude.Effect.{Result, ok, err, value_error}
use stream_house_c360_demo.DataProducts.Models.{
  GraphNode, Graph, running, unknown, NodeStatus, StatusResponse, Date, CostResponse, NodeMetrics,
}
use stream_house_c360_demo.DataProducts.Builder.{get}
use stream_house_c360_demo.DataProducts.Providers.{
  Floats, owned_pool_ids, month_to_date, rollup_of, statement_nodes, is_statement,
}

-- the values of `STATEMENT_FIXTURES`
pub record Fixture (F : Type 0) : Type 0 where
  pub uptime : ℕ
  pub messages_in : F
  pub messages_out : F
  pub cfu : F
  pub sql : String

abbrev pub lagging_node_id : String
lagging_node_id = "src_transactions"

abbrev pub lagging_pending_records : ℕ
lagging_pending_records = 15000

module _ {F : Type 0} (floats : Floats F) where
  abbrev fixture : ℕ → ℕ → ℕ → ℕ → String → Fixture F
  fixture uptime messages_in messages_out cfu sql = record {
    uptime = uptime;
    messages_in = floats.hundredths messages_in;
    messages_out = floats.hundredths messages_out;
    cfu = floats.hundredths cfu;
    sql = sql;
  }

  abbrev pub statement_fixtures : List (String × Fixture F)
  statement_fixtures =
      (
        "src_customers",
        fixture 86400 1250 1250 200
            "CREATE TABLE src_customers AS SELECT * FROM `cdc.public.customers`;",
      )
      ∷ (
        "src_accounts",
        fixture 86400 820 820 200
            "CREATE TABLE src_accounts AS SELECT * FROM `cdc.public.accounts`;",
      )
      ∷ (
        "src_transactions",
        fixture 86400 4570 4570 400
            "CREATE TABLE src_transactions AS SELECT * FROM `cdc.public.transactions`;",
      )
      ∷ (
        "dim_customers",
        fixture 86100 1250 1250 200 "CREATE TABLE dim_customers AS SELECT * FROM src_customers;",
      )
      ∷ (
        "dim_transactions",
        fixture 86100 4570 4570 400
            "CREATE TABLE dim_transactions AS SELECT * FROM src_transactions;",
      )
      ∷ (
        "dim_account_tx_agg",
        fixture 85800 4570 510 400
            "CREATE TABLE dim_account_tx_agg AS SELECT account_id, COUNT(*) AS tx_count FROM dim_transactions GROUP BY account_id;",
      )
      ∷ (
        "dim_tx_x_account",
        fixture 85800 4570 4570 400
            "CREATE TABLE dim_tx_x_account AS SELECT t.*, a.* FROM dim_transactions t JOIN src_accounts a ON t.account_id = a.account_id;",
      )
      ∷ (
        "fct_c360_profile",
        fixture 85500 1250 1250 800
            "CREATE TABLE fct_c360_profile AS SELECT c.*, agg.* FROM dim_customers c JOIN dim_account_tx_agg agg ON c.customer_id = agg.customer_id;",
      )
      ∷ []

  abbrev pub mock_cfu_dollars_per_month : F
  mock_cfu_dollars_per_month = floats.hundredths 6480

  abbrev pub mock_default_node_cfu : F
  mock_default_node_cfu = floats.hundredths 200

  -- `MockProvider(lagging)`
  module _ (lagging : Bool) (today : Date) where
    -- `_is_lagging`
    abbrev pub is_lagging : String → Bool
    is_lagging node_id = lagging && str_eq node_id lagging_node_id

    abbrev pub mock_status_of : GraphNode → NodeStatus
    mock_status_of n = record {
      node_id = n.id;
      statement_name = n.statement_name;
      phase = running;
      lagging = is_lagging n.id;
    }

    unfoldable pub mock_status : Graph → StatusResponse
    mock_status graph =
        let statements = map mock_status_of (statement_nodes graph) in
        record { statements = statements; rollup = rollup_of statements }

    abbrev pub metrics_of_fixture : String → Option (Fixture F) → NodeMetrics F
    metrics_of_fixture node_id none = record {
      node_id = node_id;
      phase = unknown;
      uptime_seconds = none;
      messages_in_per_sec = none;
      messages_out_per_sec = none;
      pending_records = none;
      compute_pool_cfu = none;
      sql = none;
    }
    metrics_of_fixture node_id (some f) = record {
      node_id = node_id;
      phase = running;
      uptime_seconds = some f.uptime;
      messages_in_per_sec = some f.messages_in;
      messages_out_per_sec = some f.messages_out;
      pending_records = some (pos (if is_lagging node_id then lagging_pending_records else 0));
      compute_pool_cfu = some f.cfu;
      sql = some f.sql;
    }

    unfoldable pub mock_metrics : Graph → String → NodeMetrics F
    mock_metrics graph node_id = metrics_of_fixture node_id (get node_id statement_fixtures)

    abbrev pub fixture_cfu : GraphNode → F
    fixture_cfu n = elim (get n.id statement_fixtures) [
      | none ↦ mock_default_node_cfu
      | some f ↦ f.cfu
    ]

    unfoldable pub mock_cost : Graph → CostResponse F
    mock_cost graph =
        let cfu = floats.sum (
          map fixture_cfu
            (keep (λ (n : GraphNode). is_statement n.type && not n.external) graph.nodes)) in
        let amount = floats.round_cents (floats.times cfu mock_cfu_dollars_per_month) in
        record {
          available = floats.is_positive amount;
          amount = amount;
          cfu = if floats.is_nonzero cfu then some cfu else none;
          period_start = (month_to_date today).0;
          period_end = (month_to_date today).1;
          pool_ids = owned_pool_ids graph;
        }

pub data Provider : Type 0 where
  mock_provider : Bool → Provider
  live_provider : Provider

-- `get_provider`, for a value of GRAPH_DATA_MODE
unfoldable pub get_provider : String → Result Provider
get_provider mode =
    if str_eq mode "mock"
    then ok (mock_provider false)
    else if str_eq mode "mock-lag"
    then ok (mock_provider true)
    else if str_eq mode "live"
    then ok live_provider
    else err value_error
