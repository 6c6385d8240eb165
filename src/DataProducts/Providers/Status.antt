-- ===== src/DataProducts/Providers/Status.antt =====
-- What the live provider reports of the statements of a graph, whatever the client answers.
use stream_house_c360_demo.Prelude.{
  ℕ, String, ◌≡◌, refl, sym, ap, ◌∙◌, true, Option, none, some, List, [], ◌∷◌, map, arith, str_eq,
  eq_iff, if◌then◌else◌, keep, length, All, Bool-cases, Option-cases, inl, inr,
}
use stream_house_c360_demo.DataProducts.Models.{
  GraphNode, Graph, Phase, unknown, NodeStatus, StatusResponse, Date,
}
use stream_house_c360_demo.DataProducts.Builder.{get}
use stream_house_c360_demo.DataProducts.Descriptor.{put}
use stream_house_c360_demo.DataProducts.Providers.{
  or_empty, Floats, Entry, Client, filled, is_statement, merged_phases, phase_for, rollup_of,
  statement_nodes, find_node, get_status, status_of, get_metrics, is_running, or_next, live_phases,
  node_metrics,
}

pub get-put :
    {A : Type 0} (id k : String) (a : A) (xs : List (String × A))
    → get id (put k a xs) ≡ (if str_eq k id then some a else get id xs)
unfolding get put
get-put id k a [] = refl
get-put id k a ((j, b) ∷ xs) = elim (Bool-cases (str_eq j k)) [
  | inl same ↦ grind (arith, eq_iff j k)
  | inr other ↦ grind (arith, eq_iff j k, eq_iff j id, eq_iff k id, get-put id k a xs)
]

-- the phase that the materialized tables have under a name
abbrev pub table_phase : String → List (String × Entry) → Option String
table_phase key [] = none
table_phase key ((name, info) ∷ more) =
    or_next (table_phase key more) (if str_eq name key then filled info.phase else none)

-- A name has the phase of the table with this name, if it has one, and else that of the statement.
pub get-merged_phases :
    (key : String) (phases : List (String × String)) (tables : List (String × Entry))
    → get key (merged_phases phases tables) ≡ or_next (table_phase key tables) (get key phases)
unfolding merged_phases
get-merged_phases key phases [] = refl
get-merged_phases key phases ((name, info) ∷ more) = elim (Option-cases (filled info.phase)) [
  | inl e ↦ rw e (ground (arith, get-merged_phases key phases more))
  | inr (phase, e) ↦ rw e (
      grind
        (arith, get-merged_phases key (put name phase phases) more, get-put key name phase phases))
]

module _ {F : Type 0} (floats : Floats F) (client : Client F) (instant_of : String → Option ℕ)
    (now : ℕ) (today : Date) where
  abbrev status : Graph → StatusResponse
  status = get_status floats client instant_of now today

  abbrev statuses_of : List GraphNode → List NodeStatus
  statuses_of nodes =
      map
        (status_of floats client instant_of now today
          (live_phases floats client instant_of now today))
        (keep (λ (n : GraphNode). is_statement n.type) nodes)

  -- the phase that a list of statuses has for a node
  abbrev pub phase_in : String → List NodeStatus → Option Phase
  phase_in node_id [] = none
  phase_in node_id (s ∷ more) =
      if str_eq s.node_id node_id then some s.phase else phase_in node_id more

  phase_in-statuses_of :
      (node_id : String) (nodes : List GraphNode) (n : GraphNode)
      → find_node node_id nodes ≡ some n
      → is_statement n.type ≡ true
      → phase_in node_id (statuses_of nodes)
        ≡ some (phase_for n (live_phases floats client instant_of now today))
  unfolding status_of
  phase_in-statuses_of node_id [] n e t = cc
  phase_in-statuses_of node_id (m ∷ nodes) n e t =
      grind (arith, phase_in-statuses_of node_id nodes n)

  phase_for_lem : (n : GraphNode) → phase_for n [] ≡ unknown
  unfolding phase_for get
  phase_for_lem n = ground arith

  length-statuses_of :
      (nodes : List GraphNode)
      → length (statuses_of nodes) ≡ length (keep (λ (n : GraphNode). is_statement n.type) nodes)
  length-statuses_of [] = refl
  length-statuses_of (n ∷ nodes) = ground (arith, length-statuses_of nodes)

  ids_of-statuses_of :
      (nodes : List GraphNode)
      → map (λ (s : NodeStatus). s.node_id) (statuses_of nodes)
        ≡ map (λ (n : GraphNode). n.id) (keep (λ (n : GraphNode). is_statement n.type) nodes)
  unfolding status_of
  ids_of-statuses_of [] = refl
  ids_of-statuses_of (n ∷ nodes) = ground (arith, ids_of-statuses_of nodes)

  lagging-statuses_of :
      (nodes : List GraphNode)
      → length (keep (λ (s : NodeStatus). s.lagging) (statuses_of nodes)) ≡ 0
  unfolding status_of
  lagging-statuses_of [] = refl
  lagging-statuses_of (n ∷ nodes) = ground (arith, lagging-statuses_of nodes)

  abbrev Fails : Type 0
  Fails =
      (or_empty client.list_statement_phases ≡ []) × (or_empty client.list_materialized_tables ≡ [])

  statuses_of-unknown :
      (nodes : List GraphNode)
      → Fails
      → All (λ (s : NodeStatus). s.phase ≡ unknown) (statuses_of nodes)
  unfolding status_of merged_phases
  statuses_of-unknown [] f = tt
  statuses_of-unknown (n ∷ nodes) f = elim (Bool-cases (is_statement n.type)) [
    | inl t ↦ rw t (
      ap (λ tables. phase_for n (merged_phases (or_empty client.list_statement_phases) tables)) f.1
          ∙ ap (phase_for n) f.0
          ∙ phase_for_lem n,
      statuses_of-unknown nodes f,
    )
    | inr t ↦ rw t (statuses_of-unknown nodes f)
  ]

  unknown-running :
      (statuses : List NodeStatus)
      → All (λ (s : NodeStatus). s.phase ≡ unknown) statuses
      → length (keep (λ (s : NodeStatus). is_running s.phase) statuses) ≡ 0
  unknown-running [] h = refl
  unknown-running (s ∷ more) h = rw (h.0, is_running) (unknown-running more h.1)

  -- The status has the statements of the graph in order, counts all of them, and calls none lagging.
  pub get_status-statements :
      (graph : Graph)
      → (map (λ (s : NodeStatus). s.node_id) (status graph).statements
          ≡ map (λ (n : GraphNode). n.id) (statement_nodes graph))
        × ((status graph).rollup.total ≡ length (statement_nodes graph))
        × ((status graph).rollup.lagging_count ≡ 0)
  unfolding get_status rollup_of
  get_status-statements graph = (
    ids_of-statuses_of graph.nodes,
    length-statuses_of graph.nodes,
    lagging-statuses_of graph.nodes,
  )

  -- If both lists of phases fail, or are empty, there still is a status: the phase of each statement is unknown,
  -- and none counts as running.
  pub get_status-unknown :
      (graph : Graph)
      → or_empty client.list_statement_phases ≡ []
      → or_empty client.list_materialized_tables ≡ []
      → All (λ (s : NodeStatus). s.phase ≡ unknown) (status graph).statements
        × ((status graph).rollup.running_count ≡ 0)
        × ((status graph).rollup.total ≡ length (statement_nodes graph))
  unfolding get_status rollup_of
  get_status-unknown graph p t =
      let all = statuses_of-unknown graph.nodes (p, t) in
      (all, unknown-running (statuses_of graph.nodes) all, length-statuses_of graph.nodes)

-- With the live provider, the drill-down of a statement shows the phase that the status has for it,
-- if Confluent Cloud lists the same phases to both requests, or fails to list them to both. All its
-- other answers, and the time, may differ. Of the mock provider nothing is said.
pub get_metrics-phase :
    {F : Type 0} (floats : Floats F) (client client' : Client F) (instant_of : String → Option ℕ)
    (now now' : ℕ) (today : Date) (graph : Graph) (node_id : String) (n : GraphNode)
    → or_empty client'.list_statement_phases ≡ or_empty client.list_statement_phases
    → or_empty client'.list_materialized_tables ≡ or_empty client.list_materialized_tables
    → find_node node_id graph.nodes ≡ some n
    → is_statement n.type ≡ true
    → phase_in floats client instant_of now today node_id
        (get_status floats client instant_of now today graph).statements
      ≡ some (get_metrics floats client' instant_of now' today graph node_id).phase
unfolding get_status get_metrics node_metrics
get_metrics-phase floats client client' instant_of now now' today graph node_id n p q e t =
    rw (e, t)
      (phase_in-statuses_of floats client instant_of now today node_id graph.nodes n e t
        ∙ ap
            (λ phases.
              some (phase_for n (merged_phases phases (or_empty client.list_materialized_tables))))
            (sym p)
        ∙ ap
            (λ tables.
              some (phase_for n (merged_phases (or_empty client'.list_statement_phases) tables)))
            (sym q))
