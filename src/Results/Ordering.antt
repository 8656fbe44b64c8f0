-- ===== src/Results/Ordering.antt =====
-- The query and the ordering of results that are made from others.
use barq_native.Prelude.{◌≡◌, refl, subst, ap₂, true, false, >>=-eq_some, List, some}
use barq_native.Prelude.Bytes.{Bytes}
use barq_native.Results.{CoreResults, with_query, where_text}

module _ (C : CoreResults) where
  open C use {
    Results, Barq, Query, Table, Ordering, Mixed, make, get_barq, get_table,
    get_descriptor_ordering,
  }

  -- The documented behaviour: results have what they were made from, and a query its table.
  pub record KeepsParts : Type 0 where
    pub query_table : Query → Table
    pub get_barq-make : (b : Barq) (q : Query) (o : Ordering) → get_barq (make b q o) ≡ b
    pub ordering-make :
        (b : Barq) (q : Query) (o : Ordering) → get_descriptor_ordering (make b q o) ≡ o
    pub get_table-make :
        (b : Barq) (q : Query) (o : Ordering) → get_table (make b q o) ≡ query_table q
    pub query_table-query :
        (t : Table) (text : Bytes) (arguments : List Mixed) (q : Query)
        → C.query t text arguments ≡ some q
        → query_table q ≡ t
    pub get_barq-freeze : (b : Barq) (r : Results) → get_barq (C.freeze b r) ≡ b
    pub is_frozen-freeze : (b : Barq) → C.is_frozen (C.freeze_barq b) ≡ true
    pub is_frozen-thaw : (b : Barq) → C.is_frozen (C.thaw_barq b) ≡ false

  module _ (L : KeepsParts) where
    with_query-with_query :
        (p q : Query) (r : Results) → with_query C q (with_query C p r) ≡ with_query C q r
    unfolding with_query
    with_query-with_query p q r =
        ap₂ (λ b o. make b q o) (L.get_barq-make _ p _) (L.ordering-make _ p _)

    where_text-parses :
        (text : Bytes) (arguments : List Mixed) (r r' : Results)
        → where_text C text arguments r ≡ some r'
        → (q : Query) × (L.query_table q ≡ get_table r) × (with_query C q r ≡ r')
    unfolding where_text
    where_text-parses text arguments r r' h =
        let (q, parsed, made) = >>=-eq_some (C.query (get_table r) text arguments) _ h in
        (q, L.query_table-query _ text arguments q parsed, cc)

    -- Over core results that meet their laws, a second where replaces the predicate of the first
    -- one: when the first text parses, the results are those of the second where alone, exception
    -- of a text that does not parse included, and they have the ordering that the results had
    -- before, that of a sort included.
    where_text-last :
        (first second : Bytes) (arguments more : List Mixed) (r r' : Results)
        → where_text C first arguments r ≡ some r'
        → (where_text C second more r' ≡ where_text C second more r)
          × (get_descriptor_ordering r' ≡ get_descriptor_ordering r)
    unfolding where_text with_query
    where_text-last first second arguments more r r' h =
        let (q, on_table, made) = where_text-parses first arguments r r' h in
        subst
          (λ x.
            (where_text C second more x ≡ where_text C second more r)
            × (get_descriptor_ordering x ≡ get_descriptor_ordering r))
          made
          (
            rw
                (
                  where_text, with_query, L.get_table-make, on_table, L.get_barq-make,
                  L.ordering-make,
                )
                refl,
            rw (with_query, L.ordering-make) refl,
          )
