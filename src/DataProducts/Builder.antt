-- ===== src/DataProducts/Builder.antt =====
-- data_products/descriptor_builder.py: graphs built from the models and sources of a dbt manifest.
-- A JSON object is an association list with no key twice.
pub mod Keys
mod Gathered
pub mod Connected
use Prim.Native.Char.{Char, code}
use Prim.Native.String.{compare, ◌++◌ as str_append}
use Prim.Native.Nat as Nat
use stream_house_c360_demo.Prelude.{
  ℕ, String, Bool, true, false, ◌&&◌, Option, none, some, List, [], ◌∷◌, ◌++◌, map, str_eq, ◌==◌,
  if◌then◌else◌, keep,
}
use stream_house_c360_demo.DataProducts.Models.{
  NodeType, source_topic, statement, TableType, materialized_table, streaming_table, GraphNode,
  GraphEdge, Graph,
}

-- a node of the manifest, as far as the builder reads it
pub record Model : Type 0 where
  pub resource_type : String
  pub name : String
  pub path : String
  pub materialized : Option String
  pub compute_pool_id : Option String
  pub depends_on : List String

pub record Source : Type 0 where
  pub name : String
  pub identifier : String

pub record Manifest : Type 0 where
  pub nodes : List (String × Model)
  pub sources : List (String × Source)

unfoldable pub get {ℓ} : {A : Type ℓ} → String → List (String × A) → Option A
get key [] = none
get key ((k, a) ∷ more) = if str_eq k key then some a else get key more

-- `dict.setdefault`
unfoldable pub setdefault {ℓ} : {A : Type ℓ} → String → A → List (String × A) → List (String × A)
setdefault key a [] = (key, a) ∷ []
setdefault key a ((k, b) ∷ more) =
    if str_eq k key then (k, b) ∷ more else (k, b) ∷ setdefault key a more

abbrev is_slash : Char → Bool
is_slash c = code c == b'/'

-- The text up to the first slash, and what follows it, if there is one.
unfoldable pub cut : String → String × Option String
cut String.[] = ("", none)
cut (String.◌∷◌ c s) =
    let rest = cut s in if is_slash c then ("", some s) else (String.◌∷◌ c rest.0, rest.1)

-- `_product_of`
unfoldable pub product_of : String → String
product_of path = (cut path).0

abbrev starts_with_facts : Option String → Bool
starts_with_facts none = false
starts_with_facts (some rest) =
    let (folder, file) = cut rest in elim file [ none ↦ false | some f ↦ str_eq folder "facts" ]

-- `_is_product`: three parts or more, the second of which is `facts`
unfoldable pub is_product : String → Bool
is_product path = starts_with_facts (cut path).1

-- `materialized if materialized in _TABLE_TYPES else None`
unfoldable pub table_type_of : Option String → Option TableType
table_type_of none = none
table_type_of (some m) =
    if str_eq m "materialized_table"
    then some materialized_table
    else if str_eq m "streaming_table"
    then some streaming_table
    else none

-- sorting by a key that is a text, stable as `sorted` is
abbrev pub comes_after : String → String → Bool
comes_after s t = elim (compare s t) [ Nat.gt ↦ true | _ ↦ false ]

module _ {ℓ} {A : Type ℓ} (key : A → String) where
  unfoldable pub insert_by : A → List A → List A
  insert_by a [] = a ∷ []
  insert_by a (b ∷ more) =
      if comes_after (key a) (key b) then b ∷ insert_by a more else a ∷ b ∷ more

  unfoldable pub sorted_by : List A → List A
  sorted_by [] = []
  sorted_by (a ∷ more) = insert_by a (sorted_by more)

-- a set of texts
unfoldable pub add_text : String → List String → List String
add_text s [] = s ∷ []
add_text s (t ∷ more) = if str_eq t s then t ∷ more else t ∷ add_text s more

unfoldable pub text_set : List String → List String
text_set [] = []
text_set (s ∷ more) = add_text s (text_set more)

abbrev is_model : String × Model → Bool
is_model n = str_eq n.1.resource_type "model"

-- `models_by_uid`
unfoldable pub models_by_uid : Manifest → List (String × Model)
models_by_uid manifest = keep is_model manifest.nodes

abbrev pub models_of : List (String × Model) → List Model
models_of = map (λ n. n.1)

-- the models of one product, by path
unfoldable pub product_models : String → List (String × Model) → List Model
product_models product_id models =
    sorted_by (λ (m : Model). m.path)
      (keep (λ m. str_eq (product_of m.path) product_id) (models_of models))

abbrev pub source_id : Source → String
source_id s = str_append "topic_" s.name

-- the nodes and edges of a product while they are gathered
pub record Parts : Type 0 where
  pub statement_nodes : List GraphNode
  pub source_nodes : List (String × GraphNode)
  pub external_nodes : List (String × GraphNode)
  pub edges : List GraphEdge

abbrev pub no_parts : Parts
no_parts = record { statement_nodes = []; source_nodes = []; external_nodes = []; edges = [] }

-- `a or b` of two optional texts
abbrev pub or_else : Option String → Option String → Option String
or_else none b = b
or_else (some s) b = if str_eq s "" then b else some s

-- `statement_name_fn` and `pool_for`, and the default pool
module _ (statement_name : String → String) (pool_for : Model → Option String)
    (default_pool : Option String) where
  -- `_stmt_node`
  unfoldable pub stmt_node : Bool → Model → GraphNode
  stmt_node external m = record {
    id = m.name;
    type = statement;
    label = m.name;
    statement_name = some (statement_name m.name);
    topic = some m.name;
    is_product = if external then false else is_product m.path;
    table_type = table_type_of m.materialized;
    compute_pool_id = or_else (pool_for m) default_pool;
    external = external;
  }

  unfoldable pub source_node : Source → GraphNode
  source_node s = record {
    id = source_id s;
    type = source_topic;
    label = s.identifier;
    statement_name = none;
    topic = some s.identifier;
    is_product = false;
    table_type = none;
    compute_pool_id = none;
    external = false;
  }

  abbrev pub add_edge : String → String → Parts → Parts
  add_edge source target p = record p {
    edges = p.edges ++ record { source = source; target = target } ∷ [];
  }

  -- a dependency on a source, or on a model of another product
  abbrev pub add_other : Option Source → Option Model → String → Parts → Parts
  add_other (some s) m name p =
      add_edge (source_id s) name
        (record p { source_nodes = setdefault (source_id s) (source_node s) p.source_nodes })
  add_other none (some m) name p =
      add_edge m.name name
        (record p { external_nodes = setdefault m.name (stmt_node true m) p.external_nodes })
  add_other none none name p = p

  abbrev pub belongs_to : String → Option Model → Bool
  belongs_to product_id none = false
  belongs_to product_id (some m) = str_eq (product_of m.path) product_id

  abbrev pub add_own : Option Model → String → Parts → Parts
  add_own none name p = p
  add_own (some m) name p = add_edge m.name name p

  module _ (models : List (String × Model)) (sources : List (String × Source))
      (product_id : String) where
    -- one round of the loop over `depends_on`
    unfoldable pub add_dependency : String → String → Parts → Parts
    add_dependency name uid p =
        let m = get uid models in
        if belongs_to product_id m then add_own m name p else add_other (get uid sources) m name p

    unfoldable pub add_dependencies : String → List String → Parts → Parts
    add_dependencies name [] p = p
    add_dependencies name (uid ∷ more) p = add_dependencies name more (add_dependency name uid p)

    -- one round of the loop over `product_models`
    unfoldable pub add_model : Model → Parts → Parts
    add_model m p =
        add_dependencies m.name m.depends_on
          (record p { statement_nodes = p.statement_nodes ++ stmt_node false m ∷ [] })

    unfoldable pub add_models : List Model → Parts → Parts
    add_models [] p = p
    add_models (m ∷ more) p = add_models more (add_model m p)

  -- `[nodes[k] for k in sorted(nodes)]`
  abbrev pub ordered : List (String × GraphNode) → List GraphNode
  ordered nodes = map (λ n. n.1) (sorted_by (λ (n : String × GraphNode). n.0) nodes)

  -- the graph of one product
  unfoldable pub build_graph : Manifest → String → Graph
  build_graph manifest product_id =
      let models = models_by_uid manifest in
      let p =
        add_models models manifest.sources product_id (product_models product_id models) no_parts in
      record {
        nodes = ordered p.source_nodes ++ (p.statement_nodes ++ ordered p.external_nodes);
        edges = p.edges;
      }

  -- the products of a manifest with their graphs, by id
  unfoldable pub build_graphs : Manifest → List (String × Graph)
  build_graphs manifest =
      map (λ id. (id, build_graph manifest id))
        (sorted_by (λ s. s)
          (text_set (map (λ (m : Model). product_of m.path) (models_of (models_by_uid manifest)))))
