-- ===== src/DataProducts/CloudClient/Costs.antt =====
-- What the loop over the pages of the costs sums, when it ends, and when it does not.
use stream_house_c360_demo.Prelude.{
  ℕ, zero, suc, ◌≤◌, String, ◌≡◌, refl, ap, sym, ◌∙◌, Bool, true, false, ◌&&◌, Option, none, some,
  List, [], ◌∷◌, ◌++◌, arith, is_some, eq_iff, All, str_eq, if◌then◌else◌, Option-cases, Bool-cases,
  inl, inr,
}
use stream_house_c360_demo.Config.{Settings}
use stream_house_c360_demo.DataProducts.Models.{Date}
use stream_house_c360_demo.DataProducts.Builder.{get}
use stream_house_c360_demo.DataProducts.Descriptor.{put}
use stream_house_c360_demo.DataProducts.Providers.{Floats, filled}
use stream_house_c360_demo.DataProducts.Providers.Status.{get-put}
use stream_house_c360_demo.DataProducts.CloudClient.{
  truthy, after_costs, Answer, received, http_error, LineItem, page, Api, add_items, cost_pages,
  get_flink_pool_costs, has_cloud, cost_api_url, cost_page_size, is_flink, or_zero,
}

module _ {F : Type 0} (floats : Floats F) (api : Api F) (s : Settings) (interval : String) where
  abbrev Params : Type 0
  Params = Option (Date × Date × ℕ)

  abbrev Totals : Type 0
  Totals = List (String × F)

  -- The amount of an item is a number; one that is absent counts as 0.
  abbrev pub HasAmount : LineItem F → Type 0
  HasAmount item = is_some item.amount ≡ true

  abbrev pub is_for : String → Option String → Bool
  is_for pool none = false
  is_for pool (some id) = str_eq id pool

  -- the amounts of the line items of Flink that name a pool, in order
  abbrev pub amounts_of : String → List (LineItem F) → List F
  amounts_of pool [] = []
  amounts_of pool (item ∷ more) =
      let rest = amounts_of pool more in
      if is_flink floats api s interval item.product && is_for pool (filled item.resource_id)
      then or_zero floats api s interval item.amount ∷ rest
      else rest

  -- a sum from the left, of what there was and more amounts; nothing of none
  abbrev pub bill : Option F → List F → Option F
  bill total [] = total
  bill total (a ∷ more) = bill (some (floats.plus (or_zero floats api s interval total) a)) more

  -- The line items of the pages from a URL on, to the one that names no next page, and the number
  -- of these pages.
  pub data Pages : Params → Option String → List (LineItem F) → ℕ → Type 0 where
    done : {params : Params} {next : Option String} → filled next ≡ none → Pages params next [] 0
    follow :
        {params : Params} {next next' : Option String} {url : String}
        {items rest : List (LineItem F)} {n : ℕ}
        → filled next ≡ some url
        → api.get_costs params url ≡ received (page items next')
        → Pages none next' rest n
        → Pages params next (items ++ rest) (suc n)

  abbrev Added : String → List (LineItem F) → Totals → Option Totals → Type 0
  Added pool items totals out =
      (totals' : Totals) × (out ≡ some totals')
      × (get pool totals' ≡ bill (get pool totals) (amounts_of pool items))

  -- one more amount in the totals, by whether its pool is the one asked for
  bill-put :
      (pool p : String) (amount : F) (totals : Totals) (rest : List F)
      → bill
          (get pool
            (put p (floats.plus (or_zero floats api s interval (get p totals)) amount) totals))
          rest
        ≡ bill (get pool totals) (if str_eq p pool then amount ∷ rest else rest)
  bill-put pool p amount totals rest =
      let x = floats.plus (or_zero floats api s interval (get p totals)) amount in
      elim (Bool-cases (str_eq p pool)) [
        | inl same ↦
            ap (λ t. bill t rest) (get-put pool p x totals)
            ∙ rw same (
                ap
                  (λ k.
                    bill (some (floats.plus (or_zero floats api s interval (get k totals)) amount))
                      rest)
                  ((eq_iff p pool).0 same))
        | inr other ↦ ap (λ t. bill t rest) (get-put pool p x totals) ∙ rw other refl
      ]

  add_items-Added :
      (pool : String) (items : List (LineItem F)) (totals : Totals)
      → All HasAmount items
      → Added pool items totals (add_items floats api s interval items totals)
  unfolding add_items
  add_items-Added pool [] totals h = (totals, refl, refl)
  add_items-Added pool (item ∷ more) totals h =
      elim (Bool-cases (is_flink floats api s interval item.product)) [
        | inr other ↦ rw (add_items, other) (add_items-Added pool more totals h.1)
        | inl flink ↦ elim (Option-cases (filled item.resource_id)) [
          | inl e ↦ rw (add_items, flink, e) (add_items-Added pool more totals h.1)
          | inr (p, e) ↦ elim (Option-cases item.amount) [
            | inl n ↦ absurd (ground (arith, sym (ap is_some n) ∙ h.0))
            | inr (amount, a) ↦
                let totals1 =
                  put p (floats.plus (or_zero floats api s interval (get p totals)) amount)
                    totals in
                let (totals', added, sum) = add_items-Added pool more totals1 h.1 in
                rw (add_items, flink, e, a)
                  (totals', added, sum ∙ bill-put pool p amount totals (amounts_of pool more))
          ]
        ]
      ]

  abbrev run : ℕ → Params → Option String → Totals → Option (Answer Totals)
  run = cost_pages floats api s interval

  run_last :
      (fuel : ℕ) (params : Params) (next : Option String) (totals : Totals)
      → filled next ≡ none
      → run fuel params next totals ≡ some (received totals)
  unfolding cost_pages
  run_last zero params next totals e = rw (cost_pages, e) refl
  run_last (suc fuel) params next totals e = rw (cost_pages, e) refl

  run-zero :
      (params : Params) (next : Option String) (totals : Totals) (url : String)
      → filled next ≡ some url
      → run zero params next totals ≡ none
  unfolding cost_pages
  run-zero params next totals url e = rw (cost_pages, e) refl

  -- one page whose line items can be added
  run_page :
      (fuel : ℕ) (params : Params) (next next' : Option String) (totals totals' : Totals)
      (url : String) (items : List (LineItem F))
      → filled next ≡ some url
      → api.get_costs params url ≡ received (page items next')
      → add_items floats api s interval items totals ≡ some totals'
      → run (suc fuel) params next totals ≡ run fuel none next' totals'
  unfolding cost_pages
  run_page fuel params next next' totals totals' url items e a t =
      rw (cost_pages, e)
        (ap (after_costs floats api s interval (run fuel none) totals) a
          ∙ ap
              (λ (o : Option Totals). elim o as (λ _. Option (Answer Totals)) [
                | none ↦ some http_error
                | some totals'' ↦ run fuel none next' totals''
              ])
              t)

  amounts_of-append :
      (pool : String) (items rest : List (LineItem F))
      → amounts_of pool (items ++ rest) ≡ amounts_of pool items ++ amounts_of pool rest
  amounts_of-append pool [] rest = refl
  amounts_of-append pool (item ∷ more) rest = ground (arith, amounts_of-append pool more rest)

  bill-append :
      (xs ys : List F) (total : Option F) → bill total (xs ++ ys) ≡ bill (bill total xs) ys
  bill-append [] ys total = refl
  bill-append (x ∷ xs) ys total =
      bill-append xs ys (some (floats.plus (or_zero floats api s interval total) x))

  All-left : (xs ys : List (LineItem F)) → All HasAmount (xs ++ ys) → All HasAmount xs
  All-left [] ys h = tt
  All-left (x ∷ xs) ys h = (h.0, All-left xs ys h.1)

  All-right : (xs ys : List (LineItem F)) → All HasAmount (xs ++ ys) → All HasAmount ys
  All-right [] ys h = h
  All-right (x ∷ xs) ys h = All-right xs ys h.1

  Summed : String → List (LineItem F) → Totals → Option (Answer Totals) → Type 0
  Summed pool items totals out =
      (totals' : Totals) × (out ≡ some (received totals'))
      × (get pool totals' ≡ bill (get pool totals) (amounts_of pool items))

  run-Summed :
      (pool : String) (fuel : ℕ) (totals : Totals) {params : Params} {next : Option String}
      {items : List (LineItem F)} {n : ℕ}
      → Pages params next items n
      → n ≤ fuel
      → All HasAmount items
      → Summed pool items totals (run fuel params next totals)
  unfolding Summed
  run-Summed pool fuel totals (done e) k h = (totals, run_last fuel _ _ totals e, refl)
  run-Summed pool zero totals (follow e a p) k h = absurd (omega arith)
  run-Summed pool (suc fuel) totals (follow {next'} {url} {items} {rest} e a p) k h =
      let (totals1, added, first) = add_items-Added pool items totals (All-left items rest h) in
      let (totals', returned, sum) =
        run-Summed pool fuel totals1 p (omega arith) (All-right items rest h) in
      (
        totals',
        run_page fuel _ _ next' totals totals1 url items e a added ∙ returned,
        sum
            ∙ ap (λ t. bill t (amounts_of pool rest)) first
            ∙ sym (bill-append (amounts_of pool items) (amounts_of pool rest) (get pool totals))
            ∙ ap (bill (get pool totals)) (sym (amounts_of-append pool items rest)),
      )

  -- With credentials, and if the pages of the costs end with the n-th and the amounts of their line
  -- items are numbers, n rounds of the loop are enough to return the costs: a pool has the sum of the
  -- amounts of the Flink items that name it, in the order of the pages, and none if none names it.
  pub get_flink_pool_costs-bill :
      (pool : String) (start end : Date) (fuel : ℕ) {items : List (LineItem F)} {n : ℕ}
      → has_cloud floats api s interval ≡ true
      → Pages (some (start, end, cost_page_size)) (some cost_api_url) items n
      → n ≤ fuel
      → All HasAmount items
      → (totals : Totals) × (get_flink_pool_costs floats api s interval fuel start end
          ≡ some (some totals))
        × (get pool totals ≡ bill none (amounts_of pool items))
  unfolding get_flink_pool_costs get Summed
  get_flink_pool_costs-bill pool start end fuel c p k h =
      let (totals, returned, sum) = run-Summed pool fuel [] p k h in
      (totals, rw (get_flink_pool_costs, c, returned) refl, sum)

  -- If a page names itself as the next one, and the amounts of its line items are numbers, the loop
  -- asks for it again after any number of rounds, and does not return.
  pub cost_pages-cyclic :
      (url : String) (items : List (LineItem F)) (totals : Totals) (fuel : ℕ)
      → truthy url ≡ true
      → api.get_costs none url ≡ received (page items (some url))
      → All HasAmount items
      → run fuel none (some url) totals ≡ none
  unfolding cost_pages
  cost_pages-cyclic url items totals zero u a h = run-zero none (some url) totals url (ground arith)
  cost_pages-cyclic url items totals (suc fuel) u a h =
      let (totals', added, sum) = add_items-Added url items totals h in
      run_page fuel none (some url) (some url) totals totals' url items (ground arith) a added
      ∙ cost_pages-cyclic url items totals' fuel u a h
