-- ===== src/DataProducts/Descriptor/Fields.antt =====
-- The fields of nodes and edges are read back as they were written.
use stream_house_c360_demo.Prelude.{
  eq_refl, String, ◌≡◌, refl, ap, ◌∙◌, Bool, true, false, Option, none, some, ◌++◌, str_eq,
  Bool-cases, inl, inr,
}
use stream_house_c360_demo.DataProducts.Models.{
  NodeType, source_topic, statement, TableType, materialized_table, streaming_table, GraphNode,
  GraphEdge,
}
use stream_house_c360_demo.DataProducts.Builder.{get}
use stream_house_c360_demo.DataProducts.Descriptor.{
  table_of, type_text, unless_false, text, unless_none, table_text, self, type_of, flag, Value,
  Object, serialize_node, serialize_edge, text_field, optional_field, flag_field, parse_node,
  parse_edge,
}

-- A field that is written under another key is passed over.
get-skip_none :
    {A : Type 0} (show : A → String) (j key : String) (o : Option A) (rest : Object)
    → str_eq j key ≡ false
    → get key (unless_none show j o ++ rest) ≡ get key rest
unfolding get
get-skip_none show j key none rest e = refl
get-skip_none show j key (some a) rest e = rw e refl

get-skip_false :
    (j key : String) (b : Bool) (rest : Object)
    → str_eq j key ≡ false
    → get key (unless_false j b ++ rest) ≡ get key rest
unfolding get
get-skip_false j key false rest e = refl
get-skip_false j key true rest e = rw e refl

abbrev shown : {A : Type 0} → (A → String) → Option A → Option Value
shown show none = none
shown show (some a) = some (text (show a))

get-unless_none :
    {A : Type 0} (show : A → String) (key : String) (o : Option A) (rest : Object)
    → get key rest ≡ none
    → get key (unless_none show key o ++ rest) ≡ shown show o
unfolding get
get-unless_none show key none rest e = e
get-unless_none show key (some a) rest e = rw (eq_refl key) refl

abbrev raised : Bool → Option Value
raised false = none
raised true = some (flag true)

get-unless_false :
    (key : String) (b : Bool) (rest : Object)
    → get key rest ≡ none
    → get key (unless_false key b ++ rest) ≡ raised b
unfolding get
get-unless_false key false rest e = e
get-unless_false key true rest e = rw (eq_refl key) refl

module _ (n : GraphNode) where
  abbrev from_external : Object
  from_external = unless_false "external" n.external

  abbrev from_pool : Object
  from_pool = unless_none self "compute_pool_id" n.compute_pool_id ++ from_external

  abbrev from_table : Object
  from_table = unless_none table_text "table_type" n.table_type ++ from_pool

  abbrev from_product : Object
  from_product = unless_false "is_product" n.is_product ++ from_table

  abbrev from_topic : Object
  from_topic = unless_none self "topic" n.topic ++ from_product

  get-external : (key : String) → str_eq "external" key ≡ false → get key from_external ≡ none
  unfolding get
  get-external key e = elim (Bool-cases n.external) [ inl t ↦ rw (t, e) refl | inr f ↦ rw f refl ]

  get-pool :
      (key : String)
      → str_eq "external" key ≡ false
      → str_eq "compute_pool_id" key ≡ false
      → get key from_pool ≡ none
  get-pool key e p =
      get-skip_none self "compute_pool_id" key n.compute_pool_id from_external p
      ∙ get-external key e

  get-product :
      (key : String)
      → str_eq "external" key ≡ false
      → str_eq "compute_pool_id" key ≡ false
      → str_eq "table_type" key ≡ false
      → str_eq "is_product" key ≡ false
      → get key from_product ≡ none
  get-product key e p t q =
      get-skip_false "is_product" key n.is_product from_table q
      ∙ get-skip_none table_text "table_type" key n.table_type from_pool t
      ∙ get-pool key e p

  to_topic :
      (key : String)
      → str_eq "statement_name" key ≡ false
      → get key (unless_none self "statement_name" n.statement_name ++ from_topic)
        ≡ get key from_topic
  to_topic key s = get-skip_none self "statement_name" key n.statement_name from_topic s

  to_product :
      (key : String)
      → str_eq "statement_name" key ≡ false
      → str_eq "topic" key ≡ false
      → get key (unless_none self "statement_name" n.statement_name ++ from_topic)
        ≡ get key from_product
  to_product key s t = to_topic key s ∙ get-skip_none self "topic" key n.topic from_product t

  get-statement_name : get "statement_name" (serialize_node n) ≡ shown self n.statement_name
  unfolding serialize_node get
  get-statement_name = get-unless_none self "statement_name" n.statement_name from_topic (
      get-skip_none self "topic" "statement_name" n.topic from_product refl
      ∙ get-product "statement_name" refl refl refl refl)

  get-topic : get "topic" (serialize_node n) ≡ shown self n.topic
  unfolding serialize_node get
  get-topic =
      to_topic "topic" refl
      ∙ get-unless_none self "topic" n.topic from_product (get-product "topic" refl refl refl refl)

  get-is_product : get "is_product" (serialize_node n) ≡ raised n.is_product
  unfolding serialize_node get
  get-is_product =
      to_product "is_product" refl refl
      ∙ get-unless_false "is_product" n.is_product from_table (
          get-skip_none table_text "table_type" "is_product" n.table_type from_pool refl
          ∙ get-pool "is_product" refl refl)

  get-table_type : get "table_type" (serialize_node n) ≡ shown table_text n.table_type
  unfolding serialize_node get
  get-table_type =
      to_product "table_type" refl refl
      ∙ get-skip_false "is_product" "table_type" n.is_product from_table refl
      ∙ get-unless_none table_text "table_type" n.table_type from_pool
          (get-pool "table_type" refl refl)

  get-compute_pool_id : get "compute_pool_id" (serialize_node n) ≡ shown self n.compute_pool_id
  unfolding serialize_node get
  get-compute_pool_id =
      to_product "compute_pool_id" refl refl
      ∙ get-skip_false "is_product" "compute_pool_id" n.is_product from_table refl
      ∙ get-skip_none table_text "table_type" "compute_pool_id" n.table_type from_pool refl
      ∙ get-unless_none self "compute_pool_id" n.compute_pool_id from_external
          (get-external "compute_pool_id" refl)

  get-external_flag : get "external" (serialize_node n) ≡ raised n.external
  unfolding serialize_node get
  get-external_flag =
      to_product "external" refl refl
      ∙ get-skip_false "is_product" "external" n.is_product from_table refl
      ∙ get-skip_none table_text "table_type" "external" n.table_type from_pool refl
      ∙ get-skip_none self "compute_pool_id" "external" n.compute_pool_id from_external refl
      ∙ elim (Bool-cases n.external) [ inl t ↦ rw t refl | inr f ↦ rw f refl ]

abbrev named : {A : Type 0} → (A → String) → Option A → Option String
named show none = none
named show (some a) = some (show a)

optional_field_lem :
    {A : Type 0} (show : A → String) (key : String) (raw : Object) (o : Option A)
    → get key raw ≡ shown show o
    → optional_field key raw ≡ some (named show o)
unfolding optional_field
optional_field_lem show key raw none e = rw (optional_field, e) refl
optional_field_lem show key raw (some s) e = rw (optional_field, e) refl

named-self : (o : Option String) → named self o ≡ o
named-self none = refl
named-self (some s) = refl

text_field_lem :
    (key : String) (raw : Object) (n : GraphNode) (o : Option String)
    → get key raw ≡ shown self o
    → optional_field key raw ≡ some o
text_field_lem key raw n o e = optional_field_lem self key raw o e ∙ ap some (named-self o)

type_of_lem : (t : NodeType) → type_of (type_text t) ≡ some t
type_of_lem source_topic = refl
type_of_lem statement = refl

table_of_lem : (o : Option TableType) → table_of (named table_text o) ≡ some o
table_of_lem none = refl
table_of_lem (some materialized_table) = refl
table_of_lem (some streaming_table) = refl

module _ (lax : Value → Option Bool) where
  flag_field_lem :
      (key : String) (raw : Object) (b : Bool)
      → get key raw ≡ raised b
      → flag_field lax key raw ≡ some b
  unfolding flag_field
  flag_field_lem key raw false e = rw (flag_field, e) refl
  flag_field_lem key raw true e = rw (flag_field, e) refl

  pub parse_node-serialize_node : (n : GraphNode) → parse_node lax (serialize_node n) ≡ some n
  unfolding parse_node text_field get serialize_node
  parse_node-serialize_node n =
      rw
        (
          text_field_lem "statement_name" (serialize_node n) n n.statement_name
              (get-statement_name n),
          text_field_lem "topic" (serialize_node n) n n.topic (get-topic n),
          flag_field_lem "is_product" (serialize_node n) n.is_product (get-is_product n),
          optional_field_lem table_text "table_type" (serialize_node n) n.table_type
              (get-table_type n),
          table_of_lem n.table_type,
          text_field_lem "compute_pool_id" (serialize_node n) n n.compute_pool_id
              (get-compute_pool_id n),
          flag_field_lem "external" (serialize_node n) n.external (get-external_flag n),
          type_of_lem n.type,
        )
        refl

  pub parse_edge-serialize_edge : (e : GraphEdge) → parse_edge lax (serialize_edge e) ≡ some e
  unfolding parse_edge text_field get serialize_edge
  parse_edge-serialize_edge e = refl
