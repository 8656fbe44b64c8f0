-- ===== src/Query/Limits.antt =====
-- Where the operators of rbool.hpp and bridge/query.cpp depart from what their names say, and what
-- each comparison leaves behind.
use mathlib.Core.Logic.{if_neg}
use barq_native.Prelude.{
  ◌>>=◌, ◌≡◌, refl, ap, ◌∙◌, Bool, true, false, not, ◌&&◌, ◌||◌, Option, none, some, arith,
  Option-cases, inl, inr,
}
use barq_native.Prelude.Bytes.{Bytes}
use barq_native.Query.{
  QueryEngine, IsLawful, Kind, string, mixed, link, Op, equal, ColKey, Kind-discrete,
}
use barq_native.Query.Bridge.{
  dictionary_has_value, column, cast_compare, link_compare, mixed_compare,
}
use barq_native.Query.Rbool.{
  Rbool, of_bool, of_query, copy, active_query, compare, contains, mixed_equal, mixed_not_equal,
  link_equal, link_not_equal, negation, conjunction, disjunction, dictionary_has_value_for_key,
}
use barq_native.Query.Predicate.{IsScalar}
use barq_native.Query.Building.{ready, on_chain, compare-on_chain}

module _ (E : QueryEngine) where
  open E use {Table, Chain, Query, Row, Value, get_table, get_bool, matches, column_holds}

  -- On two rbools that hold bools, operator&& and operator! are those of bool, and operator||
  -- returns the conjunction.
  boolean_operators :
      (a b : Bool)
      → (conjunction E (of_bool E a) (of_bool E b) ≡ some (of_bool E a, of_bool E (a && b)))
        × (disjunction E (of_bool E a) (of_bool E b) ≡ some (of_bool E a, of_bool E (a && b)))
        × (negation E (of_bool E a) ≡ (of_bool E a, of_bool E (not a)))
  unfolding conjunction disjunction negation of_bool
  boolean_operators a b = (refl, refl, refl)

  -- On an rbool with a link chain, comparing a link with null by == does what != does.
  link_equal-null :
      (r : Rbool E) (h : Chain) (c : ColKey)
      → r.link_chain ≡ some h
      → link_equal E c none r ≡ link_not_equal E c none r
  unfolding link_equal link_not_equal link_compare
  link_equal-null r h c e = rw e refl

  mixed_compare-string :
      (h : Chain) (c : ColKey) (o : Op) (v : Value mixed)
      → mixed_compare E (record { chain = h; kind = string; column = c }) o v ≡ none
  unfolding mixed_compare cast_compare
  mixed_compare-string h c o v = elim (Option-cases (get_bool v)) [
    | inl other ↦ rw (other, mixed_compare)
    | inr (b, bool) ↦ rw (bool, mixed_compare) (if_neg (Kind-discrete string mixed) (λ k. cc) _ _)
  ]

  -- On an rbool with a link chain, mixed_equal is undefined for every value: the cast of the
  -- column expression fails.
  mixed_equal-chain :
      (r : Rbool E) (h : Chain) (c : ColKey) (v : Value mixed)
      → r.link_chain ≡ some h
      → mixed_equal E c v r ≡ none
  unfolding mixed_equal column
  mixed_equal-chain r h c v e = elim (Option-cases (active_query E r.content)) [
    | inl idle ↦ rw idle
    | inr (q, active) ↦ rw (active, e, mixed_compare-string h c equal v)
  ]

  -- The comparisons that look at the link chain.
  pub data Comparison : Type 0 where
    compares : (k : Kind) → Op → ColKey → Option (Value k) → Comparison
    contained : ColKey → Value string → Bool → Comparison
    is_mixed is_not_mixed : ColKey → Value mixed → Comparison
    is_link is_not_link : ColKey → Option (Value link) → Comparison

  abbrev pub run : Comparison → Rbool E → Option (Rbool E)
  run (compares k o c v) = compare E k o c v
  run (contained c v case_sensitive) = contains E c v case_sensitive
  run (is_mixed c v) = mixed_equal E c v
  run (is_not_mixed c v) = mixed_not_equal E c v
  run (is_link c v) = link_equal E c v
  run (is_not_link c v) = link_not_equal E c v

  -- A comparison of any of the seven kinds that returns leaves the rbool with no link chain and
  -- with the table that it had.
  run-frees :
      (m : Comparison) (r r' : Rbool E)
      → run m r ≡ some r'
      → (r'.link_chain ≡ none) × (r'.table ≡ r.table)
  unfolding compare contains mixed_equal mixed_not_equal link_equal link_not_equal
  run-frees (compares k o c v) r r' e = ground arith
  run-frees (contained c v s) r r' e = ground arith
  run-frees m r r' e = ground arith

  -- The run of a function that returns `o.a op w || o.b == v`, with `b` a mixed column.
  unfoldable pub either_mixed :
      Table → (k : Kind) → Op → ColKey → Option (Value k) → ColKey → Value mixed → Option Query
  either_mixed t k o a w b v = do
    first ← compare E k o a w (of_query E (E.all t))
    second ← mixed_equal E b v first
    z ← disjunction E (copy E first) (copy E second)
    active_query E z.1.content

module _ (E : QueryEngine) (L : IsLawful E) where
  open E use {Table, Query, Row, Value, get_table, matches, column_holds}

  -- With no link chain, mixed_equal leaves a query that has the rows of the query that was there
  -- and of the comparison.
  pub mixed_equal-adds :
      (t : Table) (q : Query) (c : ColKey) (v : Value mixed)
      → (q' : Query) × (mixed_equal E c v (ready E L t q) ≡ some (ready E L t q'))
        × ((row : Row)
            → matches q' row ≡ (matches q row && column_holds mixed equal c (some v) row))
  unfolding mixed_equal
  mixed_equal-adds t q c v =
      (E.compare q mixed equal c (some v), refl, λ row. L.matches-compare _ _ _ _ _ _)

  absorb : (x y : Bool) → (x || (x && y)) ≡ x
  absorb true y = refl
  absorb false y = refl

  -- For every lawful engine, the query of a predicate o.a op w || o.b == v with b a mixed column
  -- of the table has the rows of the first test alone: the second is lost.
  either_mixed_absorbed :
      (t : Table) (k : Kind) (o : Op) (a : ColKey) (w : Option (Value k)) (b : ColKey)
      (v : Value mixed)
      → (q : Query) × (either_mixed E t k o a w b v ≡ some q)
        × ((row : Row) → matches q row ≡ column_holds k o a w row)
  unfolding either_mixed compare mixed_equal disjunction of_query copy
  either_mixed_absorbed t k o a w b v = (
    E.or_query first (E.compare first mixed equal b (some v)),
    rw (L.get_table-all t),
    λ row.
        L.matches-or _ _ row
        ∙ ap (λ x. matches first row || x) (L.matches-compare first mixed equal b (some v) row)
        ∙ absorb (matches first row) _
        ∙ L.matches-compare _ k o a w row
        ∙ ap (λ x. x && column_holds k o a w row) (L.matches-all t row),
  )
    where
      first : Query
      first = E.compare (E.all t) k o a w

  -- For every lawful engine, when a link was followed, a test of a dictionary key is made on the
  -- table that the predicate started from and not on the table of the link, and leaves the link
  -- chain, so that the next comparison, at any scalar type, goes through that link.
  pub dictionary_test-chain :
      (t : Table) (h : E.Chain) (p : Op) (c : ColKey) (key : Bytes) (v : Value mixed) (k : Kind)
      (o : Op) (a : ColKey) (w : Option (Value k))
      → IsScalar k
      → (dictionary_has_value_for_key E p c key v (on_chain E L t (E.all t) h)
          ≡ some (on_chain E L t (E.compare_key t c key p v) h))
        × (compare E k o a w (on_chain E L t (E.compare_key t c key p v) h)
            ≡ some (ready E L t (E.compare_column h k o a w)))
  unfolding dictionary_has_value_for_key
  dictionary_test-chain t h p c key v k o a w s = (
    rw (L.get_table-all t, dictionary_has_value, L.get_table-all t) refl,
    compare-on_chain E L t (E.compare_key t c key p v) h k o a w s,
  )
