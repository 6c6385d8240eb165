-- ===== src/DataProducts/Descriptor.antt =====
-- data_products/descriptor.py: descriptors as the builder writes them and as get_graph reads them.
-- A field that the graphs have no value for may be missing or null. `lax` is what pydantic reads a
-- value that is no Boolean as, where a Boolean is asked for.
mod Fields
pub mod Reading
use Prim.Native.Char.{code}
use Prim.Native.String.{◌++◌ as str_append}
use stream_house_c360_demo.Prelude.{
  ℕ, suc, String, Bool, true, false, Option, none, some, List, [], ◌∷◌, ◌++◌, map, str_eq,
  if◌then◌else◌, ◌==◌, keep, length,
}
use stream_house_c360_demo.Inventory.Fields.{◌>>=◌}
use stream_house_c360_demo.DataProducts.Models.{
  NodeType, source_topic, statement, TableType, materialized_table, streaming_table, GraphNode,
  GraphEdge, Graph,
}
use stream_house_c360_demo.DataProducts.Builder.{get}

-- a value of a JSON object, and the object
pub data Value : Type 0 where
  text : String → Value
  flag : Bool → Value
  null : Value

abbrev pub Object : Type 0
Object = List (String × Value)

pub record Descriptor : Type 0 where
  pub id : String
  pub name : String
  pub description : String
  pub nodes : List Object
  pub edges : List Object

abbrev pub type_text : NodeType → String
type_text source_topic = "source"
type_text statement = "statement"

abbrev pub table_text : TableType → String
table_text materialized_table = "materialized_table"
table_text streaming_table = "streaming_table"

-- a field that `exclude_none` drops
abbrev pub unless_none {ℓ} : {A : Type ℓ} → (A → String) → String → Option A → Object
unless_none show key none = []
unless_none show key (some a) = (key, text (show a)) ∷ []

abbrev pub self : String → String
self s = s

-- a flag that is dropped if it is false
abbrev pub unless_false : String → Bool → Object
unless_false key true = (key, flag true) ∷ []
unless_false key false = []

-- `_serialize_node`
unfoldable pub serialize_node : GraphNode → Object
serialize_node n =
    (("id", text n.id) ∷ ("type", text (type_text n.type)) ∷ ("label", text n.label) ∷ [])
    ++ (unless_none self "statement_name" n.statement_name
        ++ (unless_none self "topic" n.topic
            ++ (unless_false "is_product" n.is_product
                ++ (unless_none table_text "table_type" n.table_type
                    ++ (unless_none self "compute_pool_id" n.compute_pool_id
                        ++ unless_false "external" n.external)))))

unfoldable pub serialize_edge : GraphEdge → Object
serialize_edge e = ("source", text e.source) ∷ ("target", text e.target) ∷ []

-- `s.replace(c, " ")` of a character
abbrev pub spaced : ℕ → String → String
spaced c String.[] = ""
spaced c (String.◌∷◌ d s) =
    let rest = spaced c s in if code d == c then str_append " " rest else String.◌∷◌ d rest

-- `title` is `str.title`
module _ (title : String → String) where
  -- `_humanize`
  unfoldable pub humanize : String → String
  humanize product_id = title (spaced b'-' (spaced b'_' product_id))

  -- the descriptor of a product
  unfoldable pub describe : String × Graph → Descriptor
  describe (product_id, graph) =
      let name = humanize product_id in
      record {
        id = product_id;
        name = name;
        description = str_append name " data product, generated from dbt models.";
        nodes = map serialize_node graph.nodes;
        edges = map serialize_edge graph.edges;
      }

-- `d[key] = a`
unfoldable pub put {ℓ} : {A : Type ℓ} → String → A → List (String × A) → List (String × A)
put key a [] = (key, a) ∷ []
put key a ((k, b) ∷ more) = if str_eq k key then (k, a) ∷ more else (k, b) ∷ put key a more

-- the loop of `_load_descriptors` over the files in the order of their paths
unfoldable pub load_into : List Descriptor → List (String × Descriptor) → List (String × Descriptor)
load_into [] descriptors = descriptors
load_into (raw ∷ more) descriptors = load_into more (put raw.id raw descriptors)

unfoldable pub load_descriptors : List Descriptor → List (String × Descriptor)
load_descriptors files = load_into files []

-- `x: str`
unfoldable pub text_field : String → Object → Option String
text_field key raw = get key raw >>= λ v. elim v [ text s ↦ some s | _ ↦ none ]

-- `x: str | None = None`
abbrev pub text_or_null : Value → Option (Option String)
text_or_null (text s) = some (some s)
text_or_null (flag b) = none
text_or_null null = some none

unfoldable pub optional_field : String → Object → Option (Option String)
optional_field key raw = elim (get key raw) [ none ↦ some none | some v ↦ text_or_null v ]

abbrev pub type_of : String → Option NodeType
type_of s =
    if str_eq s "source"
    then some source_topic
    else if str_eq s "statement"
    then some statement
    else none

abbrev pub table_of : Option String → Option (Option TableType)
table_of none = some none
table_of (some s) =
    if str_eq s "materialized_table"
    then some (some materialized_table)
    else if str_eq s "streaming_table"
    then some (some streaming_table)
    else none

module _ (lax : Value → Option Bool) where
  abbrev pub to_bool : Value → Option Bool
  to_bool (flag b) = some b
  to_bool v = lax v

  -- `x: bool = False`
  unfoldable pub flag_field : String → Object → Option Bool
  flag_field key raw = elim (get key raw) [ none ↦ some false | some v ↦ to_bool v ]

  -- `GraphNode(**raw)`
  unfoldable pub parse_node : Object → Option GraphNode
  parse_node raw = do
    id ← text_field "id" raw
    type_name ← text_field "type" raw
    type ← type_of type_name
    label ← text_field "label" raw
    statement_name ← optional_field "statement_name" raw
    topic ← optional_field "topic" raw
    is_product ← flag_field "is_product" raw
    table_name ← optional_field "table_type" raw
    table_type ← table_of table_name
    compute_pool_id ← optional_field "compute_pool_id" raw
    external ← flag_field "external" raw
    some (record {
      id = id;
      type = type;
      label = label;
      statement_name = statement_name;
      topic = topic;
      is_product = is_product;
      table_type = table_type;
      compute_pool_id = compute_pool_id;
      external = external;
    })

  unfoldable pub parse_edge : Object → Option GraphEdge
  parse_edge raw = do
    source ← text_field "source" raw
    target ← text_field "target" raw
    some (record { source = source; target = target })

  abbrev pub parse_all {ℓ κ} : {A : Type ℓ} {B : Type κ} → (A → Option B) → List A → Option (List B)
  parse_all parse [] = some []
  parse_all parse (a ∷ more) = parse a >>= λ b. parse_all parse more >>= λ rest. some (b ∷ rest)

  unfoldable pub parse_graph : Descriptor → Option Graph
  parse_graph raw = do
    nodes ← parse_all parse_node raw.nodes
    edges ← parse_all parse_edge raw.edges
    some (record { nodes = nodes; edges = edges })

  -- `get_graph`: no graph of an unknown product; `some none` is a `ValidationError`.
  unfoldable pub get_graph : List (String × Descriptor) → String → Option (Option Graph)
  get_graph descriptors product_id = elim (get product_id descriptors) [
    | none ↦ none
    | some raw ↦ some (parse_graph raw)
  ]

pub record DataProductSummary : Type 0 where
  pub id : String
  pub name : String
  pub description : String
  pub statement_count : ℕ

-- `n["type"] == "statement"`
abbrev pub is_statement_value : Option Value → Bool
is_statement_value (some (text s)) = str_eq s "statement"
is_statement_value _ = false

unfoldable pub summary : Descriptor → DataProductSummary
summary raw = record {
  id = raw.id;
  name = raw.name;
  description = raw.description;
  statement_count = length (keep (λ n. is_statement_value (get "type" n)) raw.nodes);
}

-- `list_summaries`
unfoldable pub list_summaries : List (String × Descriptor) → List DataProductSummary
list_summaries descriptors = map (λ d. summary d.1) descriptors
