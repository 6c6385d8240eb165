-- ===== src/DataProducts/Providers.antt =====
-- data_products/providers.py: the live provider, over any client of Confluent Cloud. A call of the
-- client that raises yields `none`. An instant is in microseconds since the year 1; `instant_of` is
-- `datetime.fromisoformat`, in UTC if the text has no offset, and `today` and `now` are the clock.
pub mod Mock
pub mod Status
pub mod Cost
use Prim.Native.Char.{code}
use Prim.Native.Nat.{◌/◌}
use Prim.Native.String.{◌++◌ as str_append}
use stream_house_c360_demo.Prelude.{
  ℕ, ◌-◌, String, Bool, true, false, not, ◌&&◌, Option, none, some, List, [], ◌∷◌, map, str_eq,
  if◌then◌else◌, ◌==◌, leb, keep, length, truthy,
}
use stream_house_c360_demo.Prelude.Int.{ℤ}
use stream_house_c360_demo.DataProducts.Models.{
  NodeType, source_topic, statement, TableType, materialized_table, streaming_table, GraphNode,
  Graph, Phase, running, pending, degraded, failed, stopped, unknown, NodeStatus, StatusRollup,
  StatusResponse, Date, CostResponse, NodeMetrics,
}
use stream_house_c360_demo.DataProducts.Builder.{get, text_set, sorted_by, or_else}
use stream_house_c360_demo.DataProducts.Descriptor.{put}

-- What the code does with floats: `sum`, `round(x, 2)`, `x > 0`, a truth value, literals, products,
-- sums of two, the rate per second of a count per minute, and `int`.
pub record Floats (F : Type 0) : Type 0 where
  pub sum : List F → F
  pub round_cents : F → F
  pub is_positive : F → Bool
  pub is_nonzero : F → Bool
  pub hundredths : ℕ → F
  pub times : F → F → F
  pub plus : F → F → F
  pub per_second : F → F
  pub truncated : F → ℤ

-- an entry of the statements, or of the materialized tables
pub record Entry : Type 0 where
  pub phase : Option String
  pub uid : Option String
  pub version : Option String
  pub sql : Option String
  pub created_at : Option String

-- the metrics of a node as far as they are read
pub record Raw (F : Type 0) : Type 0 where
  pub uptime_seconds : Option ℕ
  pub messages_in_per_sec : Option F
  pub messages_out_per_sec : Option F
  pub pending_records : Option ℤ
  pub compute_pool_cfu : Option F
  pub sql : Option String

abbrev pub no_metrics : {F : Type 0} → Raw F
no_metrics = record {
  uptime_seconds = none;
  messages_in_per_sec = none;
  messages_out_per_sec = none;
  pending_records = none;
  compute_pool_cfu = none;
  sql = none;
}

-- `ConfluentClientProtocol`
pub record Client (F : Type 0) : Type 0 where
  pub list_statement_phases : Option (List (String × String))
  pub list_statements : Option (List (String × Entry))
  pub list_materialized_tables : Option (List (String × Entry))
  pub get_statement_metrics : String → Option String → Option (Raw F)
  pub get_materialized_table_metrics : String → Option String → Option (Raw F)
  pub get_flink_pool_costs : Date → Date → Option (List (String × F))
  pub get_compute_pool_cfu : String → Option (Option F)

-- `x or None` of an optional text
abbrev pub filled : Option String → Option String
filled o = or_else o none

-- `created_at.replace("Z", "+00:00")`
abbrev pub with_offset : String → String
with_offset String.[] = ""
with_offset (String.◌∷◌ c s) =
    let rest = with_offset s in
    if code c == b'Z' then str_append "+00:00" rest else String.◌∷◌ c rest

abbrev pub seconds_since : Option ℕ → ℕ → Option ℕ
seconds_since none now = none
seconds_since (some started) now =
    if leb started now then some ((now - started) / 1000000) else none

abbrev pub uptime_of : (String → Option ℕ) → ℕ → Option String → Option ℕ
uptime_of instant_of now none = none
uptime_of instant_of now (some created_at) = seconds_since (instant_of (with_offset created_at)) now

-- `_uptime_seconds`
unfoldable pub uptime_seconds : (String → Option ℕ) → ℕ → Option String → Option ℕ
uptime_seconds instant_of now created_at = uptime_of instant_of now (filled created_at)

abbrev pub is_statement : NodeType → Bool
is_statement statement = true
is_statement source_topic = false

abbrev pub pools_of : List GraphNode → List String
pools_of [] = []
pools_of (n ∷ more) =
    if is_statement n.type && not n.external
    then (elim (filled n.compute_pool_id) [
      | none ↦ pools_of more
      | some pool ↦ pool ∷ pools_of more
    ])
    else pools_of more

-- `_owned_pool_ids`
unfoldable pub owned_pool_ids : Graph → List String
owned_pool_ids graph = sorted_by (λ s. s) (text_set (pools_of graph.nodes))

-- `_month_to_date`
unfoldable pub month_to_date : Date → Date × Date
month_to_date today = (record today { day = 1 }, today)

-- `_merged_phases`
unfoldable pub merged_phases :
    List (String × String) → List (String × Entry) → List (String × String)
merged_phases phases [] = phases
merged_phases phases ((name, info) ∷ more) =
    merged_phases (elim (filled info.phase) [ none ↦ phases | some phase ↦ put name phase phases ])
      more

-- `_normalize_phase`
unfoldable pub normalize_phase : String → Phase
normalize_phase s =
    if str_eq s "RUNNING"
    then running
    else if str_eq s "PENDING"
    then pending
    else if str_eq s "DEGRADED"
    then degraded
    else if str_eq s "FAILED"
    then failed
    else if str_eq s "STOPPED"
    then stopped
    else unknown

-- the entry under a key that is not empty
abbrev pub under : {A : Type 0} → Option String → List (String × A) → Option A
under none entries = none
under (some key) entries = if truthy key then get key entries else none

abbrev pub or_next : {A : Type 0} → Option A → Option A → Option A
or_next none next = next
or_next (some a) next = some a

-- `_phase_for`
unfoldable pub phase_for : GraphNode → List (String × String) → Phase
phase_for n phases =
    elim (or_next (under (some n.id) phases)
      (or_next (under (some n.label) phases) (under n.statement_name phases))) [
        | none ↦ unknown
        | some phase ↦ normalize_phase phase
      ]

-- `_mt_entry_for`
unfoldable pub mt_entry_for : GraphNode → List (String × Entry) → Option Entry
mt_entry_for n tables = or_next (get n.id tables) (get n.label tables)

abbrev pub or_empty {ℓ} : {A : Type ℓ} → Option (List A) → List A
or_empty none = []
or_empty (some xs) = xs

abbrev pub is_running : Phase → Bool
is_running running = true
is_running _ = false

-- the `StatusRollup` of both providers
unfoldable pub rollup_of : List NodeStatus → StatusRollup
rollup_of statements = record {
  running_count = length (keep (λ (s : NodeStatus). is_running s.phase) statements);
  total = length statements;
  lagging_count = length (keep (λ (s : NodeStatus). s.lagging) statements);
}

-- the statement nodes of a graph
abbrev pub statement_nodes : Graph → List GraphNode
statement_nodes graph = keep (λ (n : GraphNode). is_statement n.type) graph.nodes

abbrev pub find_node : String → List GraphNode → Option GraphNode
find_node node_id [] = none
find_node node_id (n ∷ more) = if str_eq n.id node_id then some n else find_node node_id more

module _ {F : Type 0} (floats : Floats F) (client : Client F) (instant_of : String → Option ℕ)
    (now : ℕ) (today : Date) where
  -- `_safe_statement_metrics` and `_safe_mt_metrics`
  abbrev pub or_no_metrics : Option (Raw F) → Raw F
  or_no_metrics none = no_metrics
  or_no_metrics (some raw) = raw

  abbrev pub live_phases : List (String × String)
  live_phases =
      merged_phases (or_empty client.list_statement_phases)
        (or_empty client.list_materialized_tables)

  unfoldable pub status_of : List (String × String) → GraphNode → NodeStatus
  status_of phases n = record {
    node_id = n.id;
    statement_name = n.statement_name;
    phase = phase_for n phases;
    lagging = false;
  }

  -- `LiveProvider.get_status`
  unfoldable pub get_status : Graph → StatusResponse
  get_status graph =
      let statements = map (status_of live_phases) (statement_nodes graph) in
      record { statements = statements; rollup = rollup_of statements }

  -- the defining SQL and the uptime of an entry
  unfoldable pub with_entry : Entry → Raw F → Raw F
  with_entry entry raw = record raw {
    sql = or_next (filled entry.sql) raw.sql;
    uptime_seconds = or_next (uptime_seconds instant_of now entry.created_at) raw.uptime_seconds;
  }

  abbrev pub with_statement : Option Entry → Raw F → Raw F
  with_statement none raw = raw
  with_statement (some entry) raw = with_entry entry raw

  unfoldable pub streaming_metrics : Option String → Option String → Raw F
  streaming_metrics none pool = no_metrics
  streaming_metrics (some name) pool =
      with_statement (get name (or_empty client.list_statements))
        (or_no_metrics (client.get_statement_metrics name pool))

  abbrev pub metrics_of_uid : Option String → Option String → Raw F
  metrics_of_uid none pool = no_metrics
  metrics_of_uid (some uid) pool = or_no_metrics (client.get_materialized_table_metrics uid pool)

  unfoldable pub table_metrics : Option Entry → Option String → Raw F
  table_metrics none pool = no_metrics
  table_metrics (some entry) pool = with_entry entry (metrics_of_uid (filled entry.uid) pool)

  abbrev pub raw_metrics : Option TableType → GraphNode → Raw F
  raw_metrics (some streaming_table) n =
      streaming_metrics (filled n.statement_name) n.compute_pool_id
  raw_metrics _ n =
      table_metrics (mt_entry_for n (or_empty client.list_materialized_tables)) n.compute_pool_id

  unfoldable pub node_metrics : String → Phase → Raw F → NodeMetrics F
  node_metrics node_id phase raw = record {
    node_id = node_id;
    phase = phase;
    uptime_seconds = raw.uptime_seconds;
    messages_in_per_sec = raw.messages_in_per_sec;
    messages_out_per_sec = raw.messages_out_per_sec;
    pending_records = raw.pending_records;
    compute_pool_cfu = raw.compute_pool_cfu;
    sql = raw.sql;
  }

  abbrev pub metrics_of_statement : String → Option GraphNode → NodeMetrics F
  metrics_of_statement node_id none = node_metrics node_id unknown no_metrics
  metrics_of_statement node_id (some n) =
      if is_statement n.type
      then node_metrics node_id (phase_for n live_phases) (raw_metrics n.table_type n)
      else node_metrics node_id unknown no_metrics

  -- `LiveProvider.get_metrics`
  unfoldable pub get_metrics : Graph → String → NodeMetrics F
  get_metrics graph node_id = metrics_of_statement node_id (find_node node_id graph.nodes)

  -- the costs of the pools that the API names
  unfoldable pub billed : List String → List (String × F) → List F
  billed [] costs = []
  billed (pool ∷ more) costs = elim (get pool costs) [
    | none ↦ billed more costs
    | some c ↦ c ∷ billed more costs
  ]

  -- `_safe_pool_cfu`
  abbrev pub safe_pool_cfu : String → Option F
  safe_pool_cfu pool = elim (client.get_compute_pool_cfu pool) [ none ↦ none | some cfu ↦ cfu ]

  unfoldable pub cfu_values : List String → List F
  cfu_values [] = []
  cfu_values (pool ∷ more) = elim (safe_pool_cfu pool) [
    | none ↦ cfu_values more
    | some c ↦ c ∷ cfu_values more
  ]

  abbrev pub sum_if_any : List F → Option F
  sum_if_any [] = none
  sum_if_any (c ∷ more) = some (floats.sum (c ∷ more))

  abbrev pub cost_of_pools : List String → CostResponse F
  cost_of_pools [] = record {
    available = false;
    amount = floats.hundredths 0;
    cfu = none;
    period_start = (month_to_date today).0;
    period_end = (month_to_date today).1;
    pool_ids = [];
  }
  cost_of_pools (pool ∷ more) =
      let pool_ids = pool ∷ more in
      let (start, end) = month_to_date today in
      let amount =
        floats.round_cents
          (floats.sum (billed pool_ids (or_empty (client.get_flink_pool_costs start end)))) in
      record {
        available = floats.is_positive amount;
        amount = amount;
        cfu = sum_if_any (cfu_values pool_ids);
        period_start = start;
        period_end = end;
        pool_ids = pool_ids;
      }

  -- `LiveProvider.get_cost`
  unfoldable pub get_cost : Graph → CostResponse F
  get_cost graph = cost_of_pools (owned_pool_ids graph)
