-- ===== src/Query/Predicate.antt =====
-- A predicate that a program writes for results::where (include/barq_native/results.hpp): comparisons
-- of a column, reached through links by `operator->` of link.hpp, under &&, || and !. The function
-- runs once, on one query object whose members share the rbool of the call.
use barq_native.Prelude.{◌>>=◌, Bool, not, ◌&&◌, ◌||◌, Option, some, List, [], ◌∷◌}
use barq_native.Query.{QueryEngine, Kind, mixed, link, Op, ColKey}
use barq_native.Query.Rbool.{
  Rbool, of_query, copy, active_query, add_link_chain, compare, negation, conjunction, disjunction,
}

-- define_query and define_numeric_query are instantiated at every type but links and mixed values.
abbrev pub IsScalar : Kind → Type 0
IsScalar mixed = ⊥
IsScalar link = ⊥
IsScalar _ = Unit {0}

module _ (E : QueryEngine) where
  open E use {Table, Chain, Query, Row, Value, all, get_link, extend, column_holds, chain_holds}

  pub data Predicate : Type 0 where
    test : List ColKey → (k : Kind) → Op → ColKey → Option (Value k) → Predicate
    both either : Predicate → Predicate → Predicate
    negated : Predicate → Predicate

  -- The links of a path are followed one by one, each by an `operator->`.
  unfoldable pub follow : List ColKey → Rbool E → Option (Rbool E)
  follow [] r = some r
  follow (c ∷ cs) r = add_link_chain E c r >>= follow cs

  -- The function's run on the rbool of the call: what it leaves there, and the rbool it returns.
  unfoldable pub build : Predicate → Rbool E → Option (Rbool E × Rbool E)
  build (test path k o c v) r = do
    r1 ← follow path r
    r2 ← compare E k o c v r1
    some (r2, copy E r2)
  build (both a b) r = do x ← build a r; y ← build b x.0; z ← conjunction E x.1 y.1; some (y.0, z.1)
  build (either a b) r = do
    x ← build a r
    y ← build b x.0
    z ← disjunction E x.1 y.1
    some (y.0, z.1)
  build (negated a) r = do x ← build a r; some (x.0, (negation E x.1).1)

  -- results::where: the query that replaces the one at hand.
  unfoldable pub where_query : Table → Predicate → Option Query
  unfolding of_query build
  where_query t p = do x ← build p (of_query E (all t)); active_query E x.1.content

  -- What a predicate says of a row.
  abbrev pub chain_along : Chain → List ColKey → Chain
  chain_along h [] = h
  chain_along h (c ∷ cs) = chain_along (extend h c) cs

  abbrev pub holds : Table → Predicate → Row → Bool
  holds t (test [] k o c v) row = column_holds k o c v row
  holds t (test (l ∷ ls) k o c v) row = chain_holds (chain_along (get_link t l) ls) k o c v row
  holds t (both a b) row = holds t a row && holds t b row
  holds t (either a b) row = holds t a row || holds t b row
  holds t (negated a) row = not (holds t a row)

  abbrev pub IsPlain : Predicate → Type 0
  IsPlain (test path k o c v) = IsScalar k
  IsPlain (both a b) = IsPlain a × IsPlain b
  IsPlain (either a b) = IsPlain a × IsPlain b
  IsPlain (negated a) = IsPlain a
