-- ===== src/Query/Bridge.antt =====
-- src/barq_native/internal/bridge/query.cpp, in the build with generated bridge types, where a
-- bridge::query holds its core query by value. `none` stands for undefined behaviour: a call through
-- the null pointer that a failed dynamic_pointer_cast returns, or a failed assertion of core.
use mathlib.Core.Logic.{ite}
use barq_native.Prelude.{Bool, Option, none, some, if◌then◌else◌}
use barq_native.Prelude.Bytes.{Bytes}
use barq_native.Query.{
  QueryEngine, Kind, int, boolean, string, double, float, mixed, link, Op, equal, not_equal, ColKey,
  Kind-discrete,
}

module _ (E : QueryEngine) where
  open E use {
    Table, Chain, Query, Value, never, get_table, compare, contains, and_query, or_query, not_query,
    get_link, extend, root, compare_column, column_contains, compare_key, key_contains, has_key,
    key_target, column_kind, get_bool,
  }

  -- A column expression: Columns<T> of a kind, at the end of a chain of links.
  pub record Subexpr : Type 0 where
    pub chain : Chain
    pub kind : Kind
    pub column : ColKey

  -- link_chain::column<T> and column_mixed
  unfoldable pub column : Chain → Kind → ColKey → Subexpr
  column h k c = record { chain = h; kind = k; column = c }

  unfoldable pub chain_link : Chain → ColKey → Chain
  chain_link h c = extend h c

  -- *dynamic_pointer_cast<Columns<T>>(m_subexpr) compared with a value, or with null
  unfoldable pub cast_compare : Subexpr → (k : Kind) → Op → Option (Value k) → Option Query
  cast_compare s k o v =
      ite (Kind-discrete s.kind k) (some (compare_column s.chain k o s.column v)) none

  -- INT, BOOL, DOUBLE and FLOAT hand the optional over.
  unfoldable pub optional_compare : Subexpr → (k : Kind) → Op → Option (Value k) → Option Query
  unfolding cast_compare
  optional_compare s k o rhs = cast_compare s k o rhs

  -- BINARY, TIMESTAMP, UUID, OBJECT_ID, DECIMAL128 and STRING test it.
  unfoldable pub nullable_compare : Subexpr → (k : Kind) → Op → Option (Value k) → Option Query
  unfolding cast_compare
  nullable_compare s k o (some v) = cast_compare s k o (some v)
  nullable_compare s k o none = cast_compare s k o none

  -- LINKS: `equal` and `not_equal` both compare with null by `!=`. There are no other operators.
  unfoldable pub link_compare : Subexpr → Op → Option (Value link) → Option Query
  unfolding cast_compare
  link_compare s o (some v) = cast_compare s link o (some v)
  link_compare s o none = cast_compare s link not_equal none

  -- MIXED: `if (rhs)` converts the value to bool.
  unfoldable pub mixed_compare : Subexpr → Op → Value mixed → Option Query
  unfolding cast_compare
  mixed_compare s o v = elim (get_bool v) [
    | none ↦ none
    | some b ↦ cast_compare s mixed o (if b then some v else none)
  ]

  unfoldable pub subexpr_contains : Subexpr → Option (Value string) → Bool → Option Query
  subexpr_contains s v case_sensitive =
      ite (Kind-discrete s.kind string) (some (column_contains s.chain s.column v case_sensitive))
        none

  -- The overloads of subexpr::equal, not_equal, greater, ..., by the type of `rhs`.
  unfoldable pub subexpr_compare : Subexpr → (k : Kind) → Op → Option (Value k) → Option Query
  unfolding optional_compare nullable_compare link_compare
  subexpr_compare s int o rhs = optional_compare s int o rhs
  subexpr_compare s boolean o rhs = optional_compare s boolean o rhs
  subexpr_compare s double o rhs = optional_compare s double o rhs
  subexpr_compare s float o rhs = optional_compare s float o rhs
  subexpr_compare s link o rhs = link_compare s o rhs
  subexpr_compare s k o rhs = nullable_compare s k o rhs

  -- query::equal(column_key, value) and its fellows; the overload on std::nullopt is `none`.
  unfoldable pub query_compare : Query → (k : Kind) → Op → ColKey → Option (Value k) → Query
  query_compare q k o c v = compare q k o c v

  unfoldable pub query_contains : Query → ColKey → Value string → Bool → Query
  query_contains q c v case_sensitive = contains q c v case_sensitive

  -- links_to and not_links_to; `none` is the null object.
  unfoldable pub links_to : Query → ColKey → Option (Value link) → Query
  links_to q c o = compare q link equal c o

  unfoldable pub not_links_to : Query → ColKey → Option (Value link) → Query
  not_links_to q c o = compare q link not_equal c o

  unfoldable pub negate : Query → Query
  negate q = not_query q

  unfoldable pub falsepredicate : Query
  falsepredicate = never

  -- query::dictionary_has_value_for_key_equals and its fellows replace the query.
  unfoldable pub dictionary_has_value : Query → ColKey → Bytes → Op → Value mixed → Query
  dictionary_has_value q c key o v = compare_key (get_table q) c key o v

  unfoldable pub dictionary_contains_string : Query → ColKey → Bytes → Bytes → Query
  dictionary_contains_string q c key v = key_contains (get_table q) c key v

  unfoldable pub dictionary_contains_key : Query → ColKey → Bytes → Query
  dictionary_contains_key q c key = has_key (get_table q) c key

  -- The column of the table that the dictionary's values link to.
  unfoldable pub dictionary_link_subexpr : Query → ColKey → ColKey → Bytes → Subexpr
  dictionary_link_subexpr q c link_column key =
      let t = key_target (get_table q) c key in
      record { chain = root t; kind = column_kind t link_column; column = link_column }
