-- ===== src/DataProducts/CloudClient/Pages.antt =====
-- Collections of several pages are read whole.
use mathlib.Core.List.{append-nil, append_assoc}
use stream_house_c360_demo.Prelude.{
  ℕ, zero, suc, ◌≤◌, String, ◌≡◌, ap, sym, ◌∙◌, Option, none, some, List, [], ◌++◌, arith,
}
use stream_house_c360_demo.Config.{Settings}
use stream_house_c360_demo.DataProducts.Providers.{Floats, filled}
use stream_house_c360_demo.DataProducts.CloudClient.{
  received, Item, page, no_object, Api, collect, get_flink_collection, flink_max_pages,
  flink_page_size,
}

module _ {F : Type 0} (floats : Floats F) (api : Api F) (s : Settings) (interval : String) where
  -- The pages from a URL on, with their items and their number: the last one names no next page, or
  -- is no object.
  pub data Pages : Option ℕ → Option String → List Item → ℕ → Type 0 where
    done : {params : Option ℕ} {next : Option String} → filled next ≡ none → Pages params next [] 0
    cut_off :
        {params : Option ℕ} {next : Option String} {url : String}
        → filled next ≡ some url
        → api.get_flink params url ≡ received no_object
        → Pages params next [] 1
    follow :
        {params : Option ℕ} {next next' : Option String} {url : String} {more items : List Item}
        {n : ℕ}
        → filled next ≡ some url
        → api.get_flink params url ≡ received (page more next')
        → Pages none next' items n
        → Pages params next (more ++ items) (suc n)

  collect_lem :
      {params : Option ℕ} {next : Option String} {items : List Item} {n : ℕ} (fuel : ℕ)
      (seen : List Item)
      → Pages params next items n
      → n ≤ fuel
      → collect floats api s interval fuel params next seen ≡ received (seen ++ items)
  unfolding collect
  collect_lem zero seen (done e) h = ap received (sym (append-nil seen))
  collect_lem (suc fuel) seen (done e) h = rw (collect, e) (ap received (sym (append-nil seen)))
  collect_lem zero seen (cut_off e a) h = absurd (omega arith)
  collect_lem (suc fuel) seen (cut_off e a) h =
      rw (collect, e, a) (ap received (sym (append-nil seen)))
  collect_lem zero seen (follow e a p) h = absurd (omega arith)
  collect_lem (suc fuel) seen (follow {more} {items} e a p) h =
      rw (collect, e, a)
        (collect_lem fuel (seen ++ more) p (omega arith)
          ∙ ap received (append_assoc seen more items))

  -- A collection of at most 100 pages is read to its last page, with the items of all pages in order.
  pub get_flink_collection-Pages :
      {url : String} {items : List Item} {n : ℕ}
      → Pages (some flink_page_size) (some url) items n
      → n ≤ flink_max_pages
      → get_flink_collection floats api s interval url ≡ received items
  unfolding get_flink_collection
  get_flink_collection-Pages p h = collect_lem flink_max_pages [] p h
