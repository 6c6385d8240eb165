-- ===== src/DataProducts/Descriptor/Reading.antt =====
-- What is read from the descriptors that the builder writes.
use stream_house_c360_demo.Prelude.{
  eq_iff, String, ◌≡◌, refl, ap, ◌∙◌, Bool, true, false, Option, none, some, List, [], ◌∷◌, map,
  str_eq, if◌then◌else◌, arith, Bool-cases, inl, inr,
}
use stream_house_c360_demo.DataProducts.Descriptor.Fields.{
  parse_node-serialize_node, parse_edge-serialize_edge,
}
use stream_house_c360_demo.DataProducts.Models.{Graph}
use stream_house_c360_demo.DataProducts.Builder.{get}
use stream_house_c360_demo.DataProducts.Descriptor.{
  Value, Object, Descriptor, serialize_node, serialize_edge, describe, put, load_into,
  load_descriptors, parse_node, parse_edge, parse_graph, parse_all, get_graph,
}

-- the last graph under an id
abbrev pub latest : String → List (String × Graph) → Option Graph
latest id [] = none
latest id ((k, g) ∷ more) = elim (latest id more) [
  | some h ↦ some h
  | none ↦ if str_eq k id then some g else none
]

abbrev pub or_earlier : Option Graph → Option (Option Graph) → Option (Option Graph)
or_earlier none earlier = earlier
or_earlier (some g) earlier = some (some g)

module _ (lax : Value → Option Bool) where
  parse_all-map :
      {A : Type 0} (parse : Object → Option A) (write : A → Object) (xs : List A)
      → ((a : A) → parse (write a) ≡ some a)
      → parse_all lax parse (map write xs) ≡ some xs
  parse_all-map parse write [] h = refl
  parse_all-map parse write (x ∷ xs) h = rw (h x, parse_all-map parse write xs h) refl

  module _ (title : String → String) where
    parse_graph-describe : (p : String × Graph) → parse_graph lax (describe title p) ≡ some p.1
    unfolding parse_graph describe
    parse_graph-describe (id, g) =
        rw
          (
            parse_all-map (parse_node lax) serialize_node g.nodes (parse_node-serialize_node lax),
            parse_all-map (parse_edge lax) serialize_edge g.edges (parse_edge-serialize_edge lax),
          )
          refl

    get-put :
        {A : Type 0} (id k : String) (a : A) (xs : List (String × A))
        → get id (put k a xs) ≡ (if str_eq k id then some a else get id xs)
    unfolding get put
    get-put id k a [] = refl
    get-put id k a ((j, b) ∷ xs) = elim (Bool-cases (str_eq j k)) [
      | inl same ↦ grind (arith, eq_iff j k)
      | inr other ↦ grind (arith, eq_iff j k, eq_iff j id, eq_iff k id, get-put id k a xs)
    ]

    get_graph-put :
        (id k : String) (g : Graph) (seen : List (String × Descriptor))
        → get_graph lax (put k (describe title (k, g)) seen) id
          ≡ (if str_eq k id then some (some g) else get_graph lax seen id)
    unfolding get_graph
    get_graph-put id k g seen =
        rw (get_graph, get-put id k (describe title (k, g)) seen)
          (elim (Bool-cases (str_eq k id)) [
            | inl e ↦ rw e (ap some (parse_graph-describe (k, g)))
            | inr e ↦ rw e refl
          ])

    or_earlier-put :
        (b : Bool) (g : Graph) (later : Option Graph) (earlier : Option (Option Graph))
        → or_earlier later (if b then some (some g) else earlier)
          ≡ or_earlier (elim later [ some h ↦ some h | none ↦ if b then some g else none ]) earlier
    or_earlier-put true g none earlier = refl
    or_earlier-put false g none earlier = refl
    or_earlier-put b g (some h) earlier = refl

    get_graph-load_into :
        (id : String) (products : List (String × Graph)) (seen : List (String × Descriptor))
        → get_graph lax (load_into (map (describe title) products) seen) id
          ≡ or_earlier (latest id products) (get_graph lax seen id)
    unfolding load_into describe
    get_graph-load_into id [] seen = refl
    get_graph-load_into id ((k, g) ∷ more) seen =
        get_graph-load_into id more (put k (describe title (k, g)) seen)
        ∙ ap (or_earlier (latest id more)) (get_graph-put id k g seen)
        ∙ or_earlier-put (str_eq k id) g (latest id more) (get_graph lax seen id)

    -- From the files that the builder writes for some products, in any order, the reader gets the
    -- graph of each product unchanged, of the last file if an id has several, and no graph under any
    -- other id.
    pub get_graph-describe :
        (id : String) (products : List (String × Graph))
        → get_graph lax (load_descriptors (map (describe title) products)) id
          ≡ or_earlier (latest id products) none
    unfolding load_descriptors get_graph get
    get_graph-describe id products = get_graph-load_into id products []
