-- ===== src/DataProducts/Models.antt =====
-- data_products/models.py: graphs of sources and statements, with their live status, metrics and
-- cost. F are the floats.
use stream_house_c360_demo.Prelude.{ℕ, String, Bool, Option, List}
use stream_house_c360_demo.Prelude.Int.{ℤ}

-- the values of `GraphNode.type`
pub data NodeType : Type 0 where
  source_topic statement : NodeType

-- the values of `GraphNode.table_type`
pub data TableType : Type 0 where
  materialized_table streaming_table : TableType

pub record GraphNode : Type 0 where
  pub id : String
  pub type : NodeType
  pub label : String
  pub statement_name : Option String
  pub topic : Option String
  pub is_product : Bool
  pub table_type : Option TableType
  pub compute_pool_id : Option String
  pub external : Bool

pub record GraphEdge : Type 0 where
  pub source : String
  pub target : String

pub record Graph : Type 0 where
  pub nodes : List GraphNode
  pub edges : List GraphEdge

-- the phases of a statement, the values of `_VALID_PHASES`
pub data Phase : Type 0 where
  running pending degraded failed stopped unknown : Phase

pub record NodeStatus : Type 0 where
  pub node_id : String
  pub statement_name : Option String
  pub phase : Phase
  pub lagging : Bool

pub record StatusRollup : Type 0 where
  pub running_count : ℕ
  pub total : ℕ
  pub lagging_count : ℕ

pub record StatusResponse : Type 0 where
  pub statements : List NodeStatus
  pub rollup : StatusRollup

pub record Date : Type 0 where
  pub year : ℕ
  pub month : ℕ
  pub day : ℕ

pub record CostResponse (F : Type 0) : Type 0 where
  pub available : Bool
  pub amount : F
  pub cfu : Option F
  pub period_start : Date
  pub period_end : Date
  pub pool_ids : List String

pub record NodeMetrics (F : Type 0) : Type 0 where
  pub node_id : String
  pub phase : Phase
  pub uptime_seconds : Option ℕ
  pub messages_in_per_sec : Option F
  pub messages_out_per_sec : Option F
  pub pending_records : Option ℤ
  pub compute_pool_cfu : Option F
  pub sql : Option String
