-- ===== src/DataProducts/Providers/Cost.antt =====
-- Which pools the cost of a data product counts, and when there is a cost to show.
use stream_house_c360_demo.Prelude.{
  All, ℕ, suc, String, ◌≡◌, refl, Bool, true, false, not, ◌&&◌, ◌||◌, Option, none, some, List, [],
  ◌∷◌, str_eq, if◌then◌else◌, truthy,
}
use stream_house_c360_demo.DataProducts.Models.{GraphNode, Graph, Date, CostResponse}
use stream_house_c360_demo.DataProducts.Builder.{get}
use stream_house_c360_demo.DataProducts.Providers.{
  month_to_date, cost_of_pools, or_empty, Floats, Client, is_statement, owned_pool_ids, get_cost,
  billed,
}

abbrev pub times_in : String → List String → ℕ
times_in s [] = 0
times_in s (t ∷ more) = if str_eq t s then suc (times_in s more) else times_in s more

abbrev pub once : Bool → ℕ
once true = 1
once false = 0

abbrev among : String → List String → Bool
among s [] = false
among s (t ∷ more) = str_eq t s || among s more

-- a statement of the product itself that runs in a pool
abbrev pub runs_in : String → GraphNode → Bool
runs_in pool n =
    is_statement n.type
    && not n.external
    && elim n.compute_pool_id [ none ↦ false | some p ↦ truthy p && str_eq p pool ]

abbrev pub any_runs_in : String → List GraphNode → Bool
any_runs_in pool [] = false
any_runs_in pool (n ∷ more) = runs_in pool n || any_runs_in pool more

module _ {F : Type 0} (floats : Floats F) (client : Client F) (instant_of : String → Option ℕ)
    (now : ℕ) (today : Date) where
  abbrev cost : Graph → CostResponse F
  cost = get_cost floats client instant_of now today

  -- no pool of a list has a cost
  abbrev pub IsUnbilled : List String → Type 0
  IsUnbilled pools =
      All
        (λ pool.
          get pool
            (or_empty (client.get_flink_pool_costs (month_to_date today).0 (month_to_date today).1))
          ≡ none)
        pools

  billed-IsUnbilled :
      (pools : List String)
      → IsUnbilled pools
      → billed floats client instant_of now today pools
          (or_empty (client.get_flink_pool_costs (month_to_date today).0 (month_to_date today).1))
        ≡ []
  unfolding billed
  billed-IsUnbilled [] h = refl
  billed-IsUnbilled (pool ∷ pools) h = rw (billed, h.0) (billed-IsUnbilled pools h.1)

  -- There is no cost to show if the billing call fails or names none of the product's pools, for
  -- floats whose empty sum is not positive.
  pub get_cost-unavailable :
      (graph : Graph)
      → floats.is_positive (floats.round_cents (floats.sum [])) ≡ false
      → IsUnbilled (owned_pool_ids graph)
      → (cost graph).available ≡ false
  unfolding get_cost
  get_cost-unavailable graph law h = go (owned_pool_ids graph) h
    where
      go :
          (pools : List String)
          → IsUnbilled pools
          → (cost_of_pools floats client instant_of now today pools).available ≡ false
      go [] h = refl
      go (pool ∷ more) h = rw (billed-IsUnbilled (pool ∷ more) h) law
