-- ===== src/Tests/Clouds.antt =====
-- Confluent Cloud with two pages of statements and two of costs, and costs without end.
use stream_house_c360_demo.Prelude.{
  ℕ, String, List, ◌≡◌, refl, arith, none, some, [], ◌∷◌, str_eq, if◌then◌else◌,
}
use stream_house_c360_demo.Config.{Settings}
use stream_house_c360_demo.Tests.Samples.{settings_of}
use stream_house_c360_demo.Tests.Products.{floats, today}
use stream_house_c360_demo.DataProducts.CloudClient.{
  Api, Item, Page, Answer, page, received, http_error, get_flink_collection, get_flink_pool_costs,
  cost_api_url, cost_page_size, LineItem, cost_pages,
}
use stream_house_c360_demo.DataProducts.CloudClient.Pages.{
  Pages, done, follow, get_flink_collection-Pages,
}
use stream_house_c360_demo.DataProducts.CloudClient.Costs as Costs
use stream_house_c360_demo.DataProducts.CloudClient.Costs.{
  Pages as CostPages, bill, amounts_of, get_flink_pool_costs-bill, cost_pages-cyclic,
}
use stream_house_c360_demo.DataProducts.Builder.{get}

abbrev settings : Settings
settings = record (settings_of "postgres") {
  confluent_cloud_api_key = some "key";
  confluent_cloud_api_secret = some "secret";
}

abbrev item : String → Item
item name = record {
  name = some name;
  phase = some "RUNNING";
  uid = none;
  version = none;
  statement = none;
  query = none;
  created_at = none;
}

abbrev flink_page : String → Answer (Page Item)
flink_page url =
    if str_eq url "statements"
    then received (page (item "src_customers" ∷ []) (some "statements?page=2"))
    else if str_eq url "statements?page=2"
    then received (page (item "fct_profile" ∷ []) none)
    else http_error

abbrev cost : String → String → ℕ → LineItem ℕ
cost product id amount = record {
  product = some product;
  resource_id = some id;
  amount = some amount;
}

-- two pages, and one that names itself as the next
abbrev cost_page : String → Answer (Page (LineItem ℕ))
cost_page url =
    if str_eq url cost_api_url
    then received (page (cost "FLINK" "lfcp-1" 1250 ∷ []) (some "costs?page=2"))
    else if str_eq url "costs?page=2"
    then received (page (cost "KAFKA" "lkc-1" 70 ∷ cost "FLINK" "lfcp-1" 30 ∷ []) none)
    else received (page (cost "FLINK" "lfcp-1" 5 ∷ []) (some "costs?page=again"))

abbrev api : Api ℕ
api = record {
  get_flink = λ params url. flink_page url;
  get_costs = λ params url. cost_page url;
  post_query = λ q. http_error;
  post_grouped = λ q. http_error;
}

two-Pages :
    Pages floats api settings ""
      (some 100)
      (some "statements")
      (item "src_customers" ∷ item "fct_profile" ∷ [])
      2
two-Pages = follow refl refl (follow refl refl (done refl))

get_flink_collection-Pages_example :
    get_flink_collection floats api settings "" "statements"
    ≡ received (item "src_customers" ∷ item "fct_profile" ∷ [])
get_flink_collection-Pages_example =
    get_flink_collection-Pages floats api settings "" two-Pages (omega arith)

abbrev costs_of : List (LineItem ℕ)
costs_of = cost "FLINK" "lfcp-1" 1250 ∷ cost "KAFKA" "lkc-1" 70 ∷ cost "FLINK" "lfcp-1" 30 ∷ []

two_cost_pages :
    CostPages floats api settings ""
      (some (today, today, cost_page_size))
      (some cost_api_url)
      costs_of
      2
two_cost_pages = Costs.follow refl refl (Costs.follow refl refl (Costs.done refl))

get_flink_pool_costs-bill_example :
    (totals : List (String × ℕ)) × (get_flink_pool_costs floats api settings "" 3 today today
      ≡ some (some totals))
    × (get "lfcp-1" totals
        ≡ bill floats api settings "" none (amounts_of floats api settings "" "lfcp-1" costs_of))
get_flink_pool_costs-bill_example =
    get_flink_pool_costs-bill floats api settings "" "lfcp-1" today today 3 refl two_cost_pages
      (omega arith) (refl, (refl, (refl, tt)))

cost_pages-cyclic_example :
    cost_pages floats api settings "" 50 none (some "costs?page=again") [] ≡ none
cost_pages-cyclic_example =
    cost_pages-cyclic floats api settings "" "costs?page=again" (cost "FLINK" "lfcp-1" 5 ∷ []) [] 50
      refl refl (refl, tt)
