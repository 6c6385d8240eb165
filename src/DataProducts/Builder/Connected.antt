-- ===== src/DataProducts/Builder/Connected.antt =====
-- Each edge of a built graph joins two of its nodes.
use stream_house_c360_demo.Prelude.{
  All-imp, String, ◌≡◌, refl, ap, ◌∙◌, Bool, true, false, ◌||◌, Option, List, [], ◌∷◌, ◌++◌, map,
  arith, str_eq, All,
}
use stream_house_c360_demo.DataProducts.Builder.Gathered.{
  has_node, has_model, Ends, IsKeyed, IsGathered, add_models-IsGathered,
}
use stream_house_c360_demo.DataProducts.Models.{GraphNode, GraphEdge}
use stream_house_c360_demo.DataProducts.Builder.{
  Model, Manifest, Parts, no_parts, sorted_by, models_by_uid, product_models, stmt_node, add_models,
  ordered, build_graph,
}
use stream_house_c360_demo.DataProducts.Builder.Keys.{
  has_key, has_entry, has_key-append, has_key-sorted_by,
}

-- both ends of an edge are nodes
abbrev pub Joins : List GraphNode → GraphEdge → Type 0
Joins nodes e = (has_node e.source nodes ≡ true) × (has_node e.target nodes ≡ true)

module _ (statement_name : String → String) (pool_for : Model → Option String)
    (default_pool : Option String) where
  abbrev stmt : Bool → Model → GraphNode
  stmt = stmt_node statement_name pool_for default_pool

  has_node-map : (s : String) (ms : List Model) → has_node s (map (stmt false) ms) ≡ has_model s ms
  unfolding stmt_node
  has_node-map s [] = refl
  has_node-map s (m ∷ ms) = ground (arith, has_node-map s ms)

  has_node-values :
      (s : String) (entries : List (String × GraphNode))
      → has_node s (map (λ n. n.1) entries) ≡ has_key (λ (n : String × GraphNode). n.1.id) s entries
  has_node-values s [] = refl
  has_node-values s (n ∷ more) = ap (λ b. str_eq n.1.id s || b) (has_node-values s more)

  has_entry-IsKeyed :
      (s : String) (entries : List (String × GraphNode))
      → IsKeyed entries
      → has_key (λ (n : String × GraphNode). n.1.id) s entries ≡ has_entry s entries
  has_entry-IsKeyed s [] h = refl
  has_entry-IsKeyed s ((k, n) ∷ more) h =
      rw h.0 (ap (λ b. str_eq n.id s || b) (has_entry-IsKeyed s more h.1))

  has_node-ordered :
      (s : String) (entries : List (String × GraphNode))
      → IsKeyed entries
      → has_node s (ordered statement_name pool_for default_pool entries) ≡ has_entry s entries
  has_node-ordered s entries h =
      has_node-values s (sorted_by (λ (n : String × GraphNode). n.0) entries)
      ∙ has_key-sorted_by (λ (n : String × GraphNode). n.1.id) (λ (n : String × GraphNode). n.0) s
          entries
      ∙ has_entry-IsKeyed s entries h

  -- where a node of the graph comes from
  has_node-graph :
      (ms : List Model) (p : Parts) (s : String)
      → IsGathered ms p
      → p.statement_nodes ≡ map (stmt false) ms
      → has_node s (
          ordered statement_name pool_for default_pool p.source_nodes
          ++ (p.statement_nodes ++ ordered statement_name pool_for default_pool p.external_nodes))
        ≡ (has_entry s p.source_nodes || (has_model s ms || has_entry s p.external_nodes))
  has_node-graph ms p s g e = ground (
    arith,
    has_key-append (λ (n : GraphNode). n.id) s
        (ordered statement_name pool_for default_pool p.source_nodes)
        (p.statement_nodes ++ ordered statement_name pool_for default_pool p.external_nodes),
    has_key-append (λ (n : GraphNode). n.id) s p.statement_nodes
        (ordered statement_name pool_for default_pool p.external_nodes),
    has_node-ordered s p.source_nodes g.sources_keyed,
    has_node-ordered s p.external_nodes g.externals_keyed,
    ap (has_node s) e ∙ has_node-map s ms,
  )

  -- Every edge of a product's graph joins two nodes of it, whatever the manifest.
  pub build_graph-Joins :
      (manifest : Manifest) (product_id : String)
      → let g = build_graph statement_name pool_for default_pool manifest product_id in
        All (Joins g.nodes) g.edges
  unfolding build_graph
  build_graph-Joins manifest product_id =
      let models = models_by_uid manifest in
      let ms = product_models product_id models in
      let (g, all) =
        add_models-IsGathered statement_name pool_for default_pool models manifest.sources
          product_id ms no_parts (record { sources_keyed = tt; externals_keyed = tt; ends = tt }) in
      let p =
        add_models statement_name pool_for default_pool models manifest.sources product_id ms
          no_parts in
      All-imp (Ends ms p)
        (Joins (
          ordered statement_name pool_for default_pool p.source_nodes
          ++ (p.statement_nodes ++ ordered statement_name pool_for default_pool p.external_nodes)))
        p.edges
        (λ e h. (
          ground (arith, h.0, has_node-graph ms p e.source g all),
          ground (
            arith,
            h.1,
            has_node-graph ms p e.target g all,
            ap (has_node e.target) all ∙ has_node-map e.target ms,
          ),
        ))
        g.ends
