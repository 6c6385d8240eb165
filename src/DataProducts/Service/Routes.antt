-- ===== src/DataProducts/Service/Routes.antt =====
-- What the routes of the data products answer.
use stream_house_c360_demo.Prelude.{
  ℕ, String, ◌≡◌, refl, ap, ◌∙◌, Bool, true, false, Option, none, some, List, map, is_some,
  Option-cases, inl, inr,
}
use stream_house_c360_demo.Prelude.Effect.{Result, ok, err, http}
use stream_house_c360_demo.DataProducts.Models.{Graph, Date}
use stream_house_c360_demo.DataProducts.Descriptor.{Value, describe, load_descriptors}
use stream_house_c360_demo.DataProducts.Descriptor as Descriptor
use stream_house_c360_demo.DataProducts.Descriptor.Reading.{latest, or_earlier, get_graph-describe}
use stream_house_c360_demo.DataProducts.Providers.{Floats, Client, find_node}
use stream_house_c360_demo.DataProducts.Providers.Mock.{Provider, get_provider}
use stream_house_c360_demo.DataProducts.Service.{
  get_graph, service_status, service_cost, get_node_metrics, graph_route, status_route, cost_route,
  metrics_route, graph_result,
}

-- the HTTP status of a route: any exception but `HTTPException` is a 500
abbrev pub status_code : {A : Type 0} → Result A → ℕ
status_code (ok a) = 200
status_code (err (http code detail)) = code
status_code (err _) = 500

abbrev pub found : Bool → ℕ
found true = 200
found false = 404

-- whether a product is there and has a node
abbrev pub has_node_in : Option Graph → String → Bool
has_node_in none node_id = false
has_node_in (some g) node_id = is_some (find_node node_id g.nodes)

module _ (lax : Value → Option Bool) (title : String → String)
    (products : List (String × Graph)) where
  abbrev files : List (String × Descriptor.Descriptor)
  files = load_descriptors (map (describe title) products)

  graph_result_lem : (o : Option Graph) → graph_result lax files (or_earlier o none) ≡ ok o
  graph_result_lem none = refl
  graph_result_lem (some g) = refl

  get_graph_lem : (id : String) → get_graph lax files id ≡ ok (latest id products)
  unfolding get_graph
  get_graph_lem id =
      ap (graph_result lax files) (get_graph-describe lax title id products)
      ∙ graph_result_lem (latest id products)

  module _ {F : Type 0} (floats : Floats F) (client : Client F) (instant_of : String → Option ℕ)
      (now : ℕ) (today : Date) (mode : String) where
    -- Over the descriptors that the builder writes, in a known data mode: the graph, the status and
    -- the cost of a product are found exactly if it has a descriptor, and the metrics of a node
    -- exactly if the product's graph has the node; else the answer is a 404.
    pub routes-status_code :
        (id node_id : String) (p : Provider)
        → get_provider mode ≡ ok p
        → (status_code (graph_route lax files floats client instant_of now today mode id)
            ≡ found (is_some (latest id products)))
          × (status_code (status_route lax files floats client instant_of now today mode id)
              ≡ found (is_some (latest id products)))
          × (status_code (cost_route lax files floats client instant_of now today mode id)
              ≡ found (is_some (latest id products)))
          × (status_code
                (metrics_route lax files floats client instant_of now today mode id node_id)
              ≡ found (has_node_in (latest id products) node_id))
    unfolding graph_route status_route cost_route metrics_route service_status service_cost
        get_node_metrics
    routes-status_code id node_id p m =
        rw (get_graph_lem id) (elim (Option-cases (latest id products)) [
          | inl e ↦ rw e (refl, refl, refl, refl)
          | inr (g, e) ↦ elim (Option-cases (find_node node_id g.nodes)) [
            | inl n ↦ rw (e, m, n) (refl, refl, refl, refl)
            | inr (node, n) ↦ rw (e, m, n) (refl, refl, refl, refl)
          ]
        ])
