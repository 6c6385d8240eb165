-- ===== src/DataProducts/Service.antt =====
-- data_products/service.py and api/data_product_resource.py. The descriptors are those loaded at
-- start-up, `mode` is GRAPH_DATA_MODE.
pub mod Routes
use stream_house_c360_demo.Prelude.{
  ℕ, String, Bool, Option, none, some, List, str_eq, if◌then◌else◌,
}
use stream_house_c360_demo.Prelude.Effect.{Result, ok, err, http, invalid}
use stream_house_c360_demo.DataProducts.Models.{
  GraphNode, Graph, StatusResponse, Date, CostResponse, NodeMetrics,
}
use stream_house_c360_demo.DataProducts.Descriptor as Descriptor
use stream_house_c360_demo.DataProducts.Descriptor.{Value, DataProductSummary, list_summaries}
use stream_house_c360_demo.DataProducts.Providers.{
  Floats, Client, find_node, get_status, get_metrics, get_cost,
}
use stream_house_c360_demo.DataProducts.Providers.Mock.{
  Provider, mock_provider, live_provider, get_provider, mock_status, mock_metrics, mock_cost,
}

infixl 5 ◌>>=◌
abbrev pub ◌>>=◌ : {A B : Type 0} → Result A → (A → Result B) → Result B
ok a >>= f = f a
err e >>= f = err e

module _ (lax : Value → Option Bool) (descriptors : List (String × Descriptor.Descriptor)) where
  abbrev pub graph_result : Option (Option Graph) → Result (Option Graph)
  graph_result none = ok none
  graph_result (some none) = err invalid
  graph_result (some (some graph)) = ok (some graph)

  unfoldable pub get_graph : String → Result (Option Graph)
  get_graph product_id = graph_result (Descriptor.get_graph lax descriptors product_id)

  module _ {F : Type 0} (floats : Floats F) (client : Client F) (instant_of : String → Option ℕ)
      (now : ℕ) (today : Date) (mode : String) where
    abbrev provider_status : Graph → Provider → StatusResponse
    provider_status graph (mock_provider lagging) = mock_status floats lagging today graph
    provider_status graph live_provider = get_status floats client instant_of now today graph

    abbrev provider_cost : Graph → Provider → CostResponse F
    provider_cost graph (mock_provider lagging) = mock_cost floats lagging today graph
    provider_cost graph live_provider = get_cost floats client instant_of now today graph

    abbrev provider_metrics : Graph → String → Provider → NodeMetrics F
    provider_metrics graph node_id (mock_provider lagging) =
        mock_metrics floats lagging today graph node_id
    provider_metrics graph node_id live_provider =
        get_metrics floats client instant_of now today graph node_id

    -- `f` of the provider and of the graph, if there is one
    abbrev with_graph : {A : Type 0} → (Graph → Provider → A) → Option Graph → Result (Option A)
    with_graph f none = ok none
    with_graph f (some graph) = get_provider mode >>= λ provider. ok (some (f graph provider))

    unfoldable pub service_status : String → Result (Option StatusResponse)
    service_status product_id = get_graph product_id >>= with_graph provider_status

    unfoldable pub service_cost : String → Result (Option (CostResponse F))
    service_cost product_id = get_graph product_id >>= with_graph provider_cost

    abbrev if_node :
        Option GraphNode → Result (Option (NodeMetrics F)) → Result (Option (NodeMetrics F))
    if_node none metrics = ok none
    if_node (some n) metrics = metrics

    abbrev metrics_in : String → Option Graph → Result (Option (NodeMetrics F))
    metrics_in node_id none = ok none
    metrics_in node_id (some graph) =
        if_node (find_node node_id graph.nodes)
          (get_provider mode >>= λ provider. ok (some (provider_metrics graph node_id provider)))

    unfoldable pub get_node_metrics : String → String → Result (Option (NodeMetrics F))
    get_node_metrics product_id node_id = get_graph product_id >>= metrics_in node_id

    -- the routes: 404 in place of `None`
    abbrev pub or_404 : {A : Type 0} → String → Option A → Result A
    or_404 detail none = err (http 404 detail)
    or_404 detail (some a) = ok a

    unfoldable pub list_products_route : Result (List DataProductSummary)
    list_products_route = ok (list_summaries descriptors)

    unfoldable pub graph_route : String → Result Graph
    graph_route product_id = get_graph product_id >>= or_404 "Data product not found"

    unfoldable pub status_route : String → Result StatusResponse
    status_route product_id = service_status product_id >>= or_404 "Data product not found"

    unfoldable pub cost_route : String → Result (CostResponse F)
    cost_route product_id = service_cost product_id >>= or_404 "Data product not found"

    unfoldable pub metrics_route : String → String → Result (NodeMetrics F)
    metrics_route product_id node_id =
        get_node_metrics product_id node_id >>= or_404 "Data product or node not found"
