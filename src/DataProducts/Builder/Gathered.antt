-- ===== src/DataProducts/Builder/Gathered.antt =====
-- While a graph is gathered, each edge ends in a node that is there or that is to come.
use mathlib.Core.List.{append-nil, append_assoc}
use stream_house_c360_demo.Prelude.{
  String, ◌≡◌, refl, ap, sym, ◌∙◌, Bool, true, false, ◌||◌, Option, none, some, List, [], ◌∷◌, ◌++◌,
  map, arith, str_eq, eq_refl, keep, All, Bool-cases, Option-cases, inl, inr, All-append,
}
use stream_house_c360_demo.DataProducts.Models.{GraphNode, GraphEdge}
use stream_house_c360_demo.DataProducts.Builder.{
  Model, Source, Parts, get, setdefault, product_of, models_of, product_models, source_id,
  stmt_node, source_node, add_edge, add_other, add_dependency, add_dependencies, add_model,
  add_models,
}
use stream_house_c360_demo.DataProducts.Builder.Keys.{
  has_key, has_entry, has_key-append, has_key-sorted_by, has_key-keep, has_entry-setdefault,
}

abbrev pub has_node : String → List GraphNode → Bool
has_node = has_key (λ n. n.id)

abbrev pub has_model : String → List Model → Bool
has_model = has_key (λ m. m.name)

-- Both ends of an edge are nodes, where the product's own models are to become nodes.
abbrev pub Ends : List Model → Parts → GraphEdge → Type 0
Ends own p e =
    ((has_model e.source own
        || (has_entry e.source p.source_nodes || has_entry e.source p.external_nodes))
      ≡ true)
    × (has_node e.target p.statement_nodes ≡ true)

abbrev pub IsKeyed : List (String × GraphNode) → Type 0
IsKeyed = All (λ n. n.0 ≡ n.1.id)

pub record IsGathered (own : List Model) (p : Parts) : Type 0 where
  pub sources_keyed : IsKeyed p.source_nodes
  pub externals_keyed : IsKeyed p.external_nodes
  pub ends : All (Ends own p) p.edges

setdefault-IsKeyed :
    (key : String) (n : GraphNode) (entries : List (String × GraphNode))
    → key ≡ n.id
    → IsKeyed entries
    → IsKeyed (setdefault key n entries)
unfolding setdefault
setdefault-IsKeyed key n [] e h = (e, tt)
setdefault-IsKeyed key n ((k, m) ∷ more) e h = elim (Bool-cases (str_eq k key)) [
  | inl same ↦ rw same h
  | inr other ↦ rw other (h.0, setdefault-IsKeyed key n more e h.1)
]

-- the gathered parts keep the ends of earlier edges
Ends-set_sources :
    (own : List Model) (p : Parts) (key : String) (n : GraphNode) (edges : List GraphEdge)
    → All (Ends own p) edges
    → All (Ends own (record p { source_nodes = setdefault key n p.source_nodes })) edges
Ends-set_sources own p key n [] h = tt
Ends-set_sources own p key n (e ∷ edges) h = (
  ground (arith, h.0, has_entry-setdefault e.source key n p.source_nodes),
  Ends-set_sources own p key n edges h.1,
)

Ends-set_externals :
    (own : List Model) (p : Parts) (key : String) (n : GraphNode) (edges : List GraphEdge)
    → All (Ends own p) edges
    → All (Ends own (record p { external_nodes = setdefault key n p.external_nodes })) edges
Ends-set_externals own p key n [] h = tt
Ends-set_externals own p key n (e ∷ edges) h = (
  ground (arith, h.0, has_entry-setdefault e.source key n p.external_nodes),
  Ends-set_externals own p key n edges h.1,
)

Ends-add_statement :
    (own : List Model) (p : Parts) (n : GraphNode) (edges : List GraphEdge)
    → All (Ends own p) edges
    → All (Ends own (record p { statement_nodes = p.statement_nodes ++ n ∷ [] })) edges
Ends-add_statement own p n [] h = tt
Ends-add_statement own p n (e ∷ edges) h = (
  ground (arith, h.0, has_key-append (λ (m : GraphNode). m.id) e.target p.statement_nodes (n ∷ [])),
  Ends-add_statement own p n edges h.1,
)

module _ (statement_name : String → String) (pool_for : Model → Option String)
    (default_pool : Option String) where
  abbrev stmt : Bool → Model → GraphNode
  stmt = stmt_node statement_name pool_for default_pool

  add_edge-IsGathered :
      (own : List Model) (source target : String) (p : Parts)
      → IsGathered own p
      → Ends own p (record { source = source; target = target })
      → IsGathered own (add_edge statement_name pool_for default_pool source target p)
  add_edge-IsGathered own source target p g e = record {
    sources_keyed = g.sources_keyed;
    externals_keyed = g.externals_keyed;
    ends =
        All-append (Ends own p) p.edges (record { source = source; target = target } ∷ []) g.ends
          (e, tt);
  }

  add_other-IsGathered :
      (own : List Model) (s : Option Source) (m : Option Model) (name : String) (p : Parts)
      → IsGathered own p
      → has_node name p.statement_nodes ≡ true
      → IsGathered own (add_other statement_name pool_for default_pool s m name p)
  unfolding stmt_node source_node
  add_other-IsGathered own (some s) m name p g t =
      let n = source_node statement_name pool_for default_pool s in
      add_edge-IsGathered own (source_id s) name
        (record p { source_nodes = setdefault (source_id s) n p.source_nodes })
        (record {
          sources_keyed = setdefault-IsKeyed (source_id s) n p.source_nodes refl g.sources_keyed;
          externals_keyed = g.externals_keyed;
          ends = Ends-set_sources own p (source_id s) n p.edges g.ends;
        })
        (
          ground (
            arith,
            has_entry-setdefault (source_id s) (source_id s) n p.source_nodes,
            eq_refl (source_id s),
          ),
          t,
        )
  add_other-IsGathered own none (some m) name p g t =
      let n = stmt true m in
      add_edge-IsGathered own m.name name
        (record p { external_nodes = setdefault m.name n p.external_nodes })
        (record {
          sources_keyed = g.sources_keyed;
          externals_keyed = setdefault-IsKeyed m.name n p.external_nodes refl g.externals_keyed;
          ends = Ends-set_externals own p m.name n p.edges g.ends;
        })
        (ground (arith, has_entry-setdefault m.name m.name n p.external_nodes, eq_refl m.name), t)
  add_other-IsGathered own none none name p g t = g

  add_other-statements :
      (s : Option Source) (m : Option Model) (name : String) (p : Parts)
      → (add_other statement_name pool_for default_pool s m name p).statement_nodes
        ≡ p.statement_nodes
  add_other-statements (some s) m name p = refl
  add_other-statements none (some m) name p = refl
  add_other-statements none none name p = refl

  module _ (models : List (String × Model)) (sources : List (String × Source))
      (product_id : String) where
    abbrev own : List Model
    own = product_models product_id models

    own-has_model :
        (uid : String) (m : Model)
        → get uid models ≡ some m
        → str_eq (product_of m.path) product_id ≡ true
        → has_model m.name own ≡ true
    unfolding product_models
    own-has_model uid m e b =
        has_key-sorted_by (λ (m : Model). m.name) (λ (m : Model). m.path) m.name
          (keep (λ m. str_eq (product_of m.path) product_id) (models_of models))
        ∙ has_key-keep (λ (m : Model). m.name) (λ m. str_eq (product_of m.path) product_id) uid m
            models e b

    abbrev depend : String → String → Parts → Parts
    depend = add_dependency statement_name pool_for default_pool models sources product_id

    add_dependency-IsGathered :
        (name uid : String) (p : Parts)
        → IsGathered own p
        → has_node name p.statement_nodes ≡ true
        → IsGathered own (depend name uid p)
          × ((depend name uid p).statement_nodes ≡ p.statement_nodes)
    unfolding add_dependency
    add_dependency-IsGathered name uid p g t = elim (Option-cases (get uid models)) [
      | inl missing ↦ rw missing (
        add_other-IsGathered own (get uid sources) none name p g t,
        add_other-statements (get uid sources) none name p,
      )
      | inr (m, found) ↦ elim (Bool-cases (str_eq (product_of m.path) product_id)) [
        | inl mine ↦
            rw (found, mine)
              (
                add_edge-IsGathered own m.name name p g
                    (ground (arith, own-has_model uid m found mine), t),
                refl,
              )
        | inr other ↦
            rw (found, other)
              (
                add_other-IsGathered own (get uid sources) (some m) name p g t,
                add_other-statements (get uid sources) (some m) name p,
              )
      ]
    ]

    add_dependencies-IsGathered :
        (name : String) (uids : List String) (p : Parts)
        → IsGathered own p
        → has_node name p.statement_nodes ≡ true
        → IsGathered own (
            add_dependencies statement_name pool_for default_pool models sources product_id name
              uids p)
          × ((add_dependencies statement_name pool_for default_pool models sources product_id name
                uids p).statement_nodes
              ≡ p.statement_nodes)
    unfolding add_dependencies
    add_dependencies-IsGathered name [] p g t = (g, refl)
    add_dependencies-IsGathered name (uid ∷ uids) p g t =
        let (g', same) = add_dependency-IsGathered name uid p g t in
        let (g'', same') =
          add_dependencies-IsGathered name uids (depend name uid p) g'
            (ap (has_node name) same ∙ t) in
        (g'', same' ∙ same)

    abbrev with_model : Model → Parts → Parts
    with_model = add_model statement_name pool_for default_pool models sources product_id

    add_model-IsGathered :
        (m : Model) (p : Parts)
        → IsGathered own p
        → IsGathered own (with_model m p)
          × ((with_model m p).statement_nodes ≡ p.statement_nodes ++ stmt false m ∷ [])
    unfolding add_model stmt_node
    add_model-IsGathered m p g =
        add_dependencies-IsGathered m.name m.depends_on
          (record p { statement_nodes = p.statement_nodes ++ stmt false m ∷ [] })
          (record {
            sources_keyed = g.sources_keyed;
            externals_keyed = g.externals_keyed;
            ends = Ends-add_statement own p (stmt false m) p.edges g.ends;
          })
          (ground (
            arith,
            has_key-append (λ (n : GraphNode). n.id) m.name p.statement_nodes (stmt false m ∷ []),
            eq_refl m.name,
          ))

    abbrev with_models : List Model → Parts → Parts
    with_models = add_models statement_name pool_for default_pool models sources product_id

    pub add_models-IsGathered :
        (ms : List Model) (p : Parts)
        → IsGathered own p
        → IsGathered own (with_models ms p)
          × ((with_models ms p).statement_nodes ≡ p.statement_nodes ++ map (stmt false) ms)
    unfolding add_models
    add_models-IsGathered [] p g = (g, sym (append-nil p.statement_nodes))
    add_models-IsGathered (m ∷ ms) p g =
        let (g', one) = add_model-IsGathered m p g in
        let (g'', all) = add_models-IsGathered ms (with_model m p) g' in
        (
          g'',
          all
              ∙ ap (λ l. l ++ map (stmt false) ms) one
              ∙ append_assoc p.statement_nodes (stmt false m ∷ []) (map (stmt false) ms),
        )
