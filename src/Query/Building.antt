-- ===== src/Query/Building.antt =====
-- The query that a predicate builds is the predicate (results.hpp, rbool.hpp, bridge/query.cpp).
use mathlib.Core.Logic.{if_pos}
use barq_native.Prelude.{
  ◌≡◌, refl, ap, ap₂, ◌∙◌, not, ◌&&◌, ◌||◌, Option, none, some, List, [], ◌∷◌,
}
use barq_native.Query.{
  QueryEngine, IsLawful, Kind, int, boolean, double, float, mixed, link, Op, ColKey, Kind-discrete,
}
use barq_native.Query.Bridge.{cast_compare, nullable_compare, subexpr_compare}
use barq_native.Query.Rbool.{
  Rbool, query, of_query, copy, add_link_chain, compare, negation, conjunction, disjunction,
}
use barq_native.Query.Predicate.{
  Predicate, test, both, either, negated, follow, build, where_query, chain_along, holds, IsScalar,
  IsPlain,
}

module _ (E : QueryEngine) (L : IsLawful E) where
  open E use {
    Table, Chain, Query, Row, Value, all, get_table, get_link, extend, compare_column, matches,
    column_holds, base,
  }

  -- The rbool of a call between two comparisons: a query on table `t`, and nothing to go through.
  abbrev pub ready : Table → Query → Rbool E
  ready t q = record { content = query q; link_chain = none; table = some t; dictionary_ctx = none }

  pub record Built (t : Table) (p : Predicate E) (q : Query) : Type 0 where
    pub left : Query
    pub result : Rbool E
    pub found : Query
    pub runs : build E p (ready t q) ≡ some (ready t left, result)
    pub stays : get_table left ≡ t
    pub holds_query : result.content ≡ query found
    pub means : (row : Row) → matches found row ≡ holds E t p row

  cast_compare_self :
      (h : Chain) (k : Kind) (o : Op) (c : ColKey) (v : Option (Value k))
      → cast_compare E (record { chain = h; kind = k; column = c }) k o v
        ≡ some (compare_column h k o c v)
  unfolding cast_compare
  cast_compare_self h k o c v = if_pos (Kind-discrete k k) refl _ _

  nullable_compare_self :
      (h : Chain) (k : Kind) (o : Op) (c : ColKey) (v : Option (Value k))
      → nullable_compare E (record { chain = h; kind = k; column = c }) k o v
        ≡ some (compare_column h k o c v)
  unfolding nullable_compare
  nullable_compare_self h k o c none = cast_compare_self h k o c none
  nullable_compare_self h k o c (some v) = cast_compare_self h k o c (some v)

  subexpr_compare-scalar :
      (h : Chain) (k : Kind) (o : Op) (c : ColKey) (v : Option (Value k))
      → IsScalar k
      → subexpr_compare E (record { chain = h; kind = k; column = c }) k o v
        ≡ some (compare_column h k o c v)
  unfolding subexpr_compare
  subexpr_compare-scalar h int o c v s = cast_compare_self h int o c v
  subexpr_compare-scalar h boolean o c v s = cast_compare_self h boolean o c v
  subexpr_compare-scalar h double o c v s = cast_compare_self h double o c v
  subexpr_compare-scalar h float o c v s = cast_compare_self h float o c v
  subexpr_compare-scalar h mixed o c v s = absurd s
  subexpr_compare-scalar h link o c v s = absurd s
  subexpr_compare-scalar h k o c v s = nullable_compare_self h k o c v

  -- The rbool of a call in the middle of a path.
  abbrev pub on_chain : Table → Query → Chain → Rbool E
  on_chain t q h = record (ready t q) { link_chain = some h }

  follow-on_chain :
      (t : Table) (q : Query) (h : Chain) (cs : List ColKey)
      → follow E cs (on_chain t q h) ≡ some (on_chain t q (chain_along E h cs))
  unfolding follow add_link_chain
  follow-on_chain t q h [] = refl
  follow-on_chain t q h (c ∷ cs) = follow-on_chain t q (extend h c) cs

  base-chain_along : (h : Chain) (cs : List ColKey) → base (chain_along E h cs) ≡ base h
  base-chain_along h [] = refl
  base-chain_along h (c ∷ cs) = base-chain_along (extend h c) cs ∙ L.base-extend h c

  pub compare-on_chain :
      (t : Table) (q : Query) (h : Chain) (k : Kind) (o : Op) (c : ColKey) (v : Option (Value k))
      → IsScalar k
      → compare E k o c v (on_chain t q h) ≡ some (ready t (compare_column h k o c v))
  unfolding compare
  compare-on_chain t q h k o c v s = rw (subexpr_compare-scalar h k o c v s)

  test-Built :
      (t : Table) (path : List ColKey) (k : Kind) (o : Op) (c : ColKey) (v : Option (Value k))
      (q : Query)
      → IsScalar k
      → get_table q ≡ t
      → Built t (test path k o c v) q
  unfolding build copy compare follow add_link_chain
  test-Built t [] k o c v q s e = record {
    left = E.compare (all t) k o c v;
    result = copy E (ready t (E.compare (all t) k o c v));
    found = E.compare (all t) k o c v;
    runs = rw e;
    stays = L.get_table-compare _ _ _ _ _ ∙ L.get_table-all t;
    holds_query = refl;
    means = λ row.
        L.matches-compare _ _ _ _ _ _
        ∙ ap (λ b. b && column_holds k o c v row) (L.matches-all t row);
  }
  test-Built t (l ∷ ls) k o c v q s e = record {
    left = compare_column h k o c v;
    result = copy E (ready t (compare_column h k o c v));
    found = compare_column h k o c v;
    runs = rw (follow-on_chain t q (get_link t l) ls, compare-on_chain t q h k o c v s);
    stays =
        L.get_table-compare_column h k o c v
        ∙ base-chain_along (get_link t l) ls
        ∙ L.base-get_link t l;
    holds_query = refl;
    means = λ row. L.matches-compare_column h k o c v row;
  }
    where
      h : Chain
      h = chain_along E (get_link t l) ls

  both-Built :
      {t : Table} {a b : Predicate E} {q : Query}
      → Built t a q
      → ((q' : Query) → get_table q' ≡ t → Built t b q')
      → Built t (both a b) q
  unfolding build conjunction copy
  both-Built {t} {a} {b} x next =
      let y = next x.left x.stays in
      record {
        left = y.left;
        result = copy E (record x.result { content = query (E.and_query x.found y.found) });
        found = E.and_query x.found y.found;
        runs = rw (x.runs, y.runs, x.holds_query, y.holds_query);
        stays = y.stays;
        holds_query = refl;
        means = λ row. L.matches-and x.found y.found row ∙ ap₂ ◌&&◌ (x.means row) (y.means row);
      }

  either-Built :
      {t : Table} {a b : Predicate E} {q : Query}
      → Built t a q
      → ((q' : Query) → get_table q' ≡ t → Built t b q')
      → Built t (either a b) q
  unfolding build disjunction copy
  either-Built {t} {a} {b} x next =
      let y = next x.left x.stays in
      record {
        left = y.left;
        result = copy E (record x.result { content = query (E.or_query x.found y.found) });
        found = E.or_query x.found y.found;
        runs = rw (x.runs, y.runs, x.holds_query, y.holds_query);
        stays = y.stays;
        holds_query = refl;
        means = λ row. L.matches-or x.found y.found row ∙ ap₂ ◌||◌ (x.means row) (y.means row);
      }

  negated-Built : {t : Table} {a : Predicate E} {q : Query} → Built t a q → Built t (negated a) q
  unfolding build negation copy
  negated-Built x = record {
    left = x.left;
    result = copy E (record x.result { content = query (E.not_query x.found) });
    found = E.not_query x.found;
    runs = rw (x.runs, x.holds_query);
    stays = x.stays;
    holds_query = refl;
    means = λ row. L.matches-not x.found row ∙ ap not (x.means row);
  }

  -- Whatever query the call's rbool holds, the predicate's query has the rows where it holds.
  pub build-Built :
      (t : Table) (p : Predicate E) (q : Query) → IsPlain E p → get_table q ≡ t → Built t p q
  build-Built t (test path k o c v) q s e = test-Built t path k o c v q s e
  build-Built t (both a b) q s e =
      both-Built (build-Built t a q s.0 e) (λ q' e'. build-Built t b q' s.1 e')
  build-Built t (either a b) q s e =
      either-Built (build-Built t a q s.0 e) (λ q' e'. build-Built t b q' s.1 e')
  build-Built t (negated a) q s e = negated-Built (build-Built t a q s e)

  where_query-found :
      {t : Table} {p : Predicate E} (b : Built t p (all t)) → where_query E t p ≡ some b.found
  unfolding where_query of_query
  where_query-found {t} b = rw (L.get_table-all t, b.runs, b.holds_query)

  -- For every lawful query engine and every predicate over columns of scalar type, reached
  -- through any path of links, under &&, || and !, results::where ends with a query, and that
  -- query has exactly the rows where the predicate holds.
  pub where_query-holds :
      (t : Table) (p : Predicate E)
      → IsPlain E p
      → (q : Query) × (where_query E t p ≡ some q) × ((row : Row) → matches q row ≡ holds E t p row)
  where_query-holds t p s =
      let b = build-Built t p (all t) s (L.get_table-all t) in
      (b.found, where_query-found b, b.means)
