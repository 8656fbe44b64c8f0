-- ===== src/Query/Rbool.antt =====
-- include/barq_native/rbool.hpp: the result of a predicate. It is a union of a bool and a query, with
-- the link chain or dictionary key that the next comparison is to go through. Methods return the
-- rbool that they leave; `none` stands for undefined behaviour, such as a read of the union's
-- inactive member.
use barq_native.Prelude.{◌>>=◌, Bool, not, ◌&&◌, Option, none, some}
use barq_native.Prelude.Bytes.{Bytes}
use barq_native.Query.{QueryEngine, Kind, string, mixed, link, Op, equal, not_equal, ColKey}
use barq_native.Query.Bridge.{
  column, chain_link, subexpr_compare, mixed_compare, subexpr_contains, query_compare,
  query_contains, links_to, not_links_to, negate, falsepredicate, dictionary_has_value,
  dictionary_contains_string, dictionary_contains_key, dictionary_link_subexpr,
}

pub record DictionaryContext : Type 0 where
  pub origin_col_key : ColKey
  pub key : Bytes

module _ (E : QueryEngine) where
  open E use {Table, Chain, Query, Value, all, get_table, and_query, or_query, get_link}

  pub data Content : Type 0 where
    boolean : Bool → Content
    query : Query → Content

  pub record Rbool : Type 0 where
    pub content : Content
    pub link_chain : Option Chain
    -- m_table; `none` is the table of a default constructor
    pub table : Option Table
    pub dictionary_ctx : Option DictionaryContext

  unfoldable pub of_query : Query → Rbool
  of_query q = record {
    content = query q;
    link_chain = none;
    table = some (get_table q);
    dictionary_ctx = none;
  }

  unfoldable pub of_bool : Bool → Rbool
  of_bool b = record { content = boolean b; link_chain = none; table = none; dictionary_ctx = none }

  -- The copy constructor copies the union and nothing else.
  unfoldable pub copy : Rbool → Rbool
  copy r = record { content = r.content; link_chain = none; table = none; dictionary_ctx = none }

  -- The member `q`, where it is the active one.
  abbrev pub active_query : Content → Option Query
  active_query (boolean b) = none
  active_query (query q) = some q

  abbrev pub active_bool : Content → Option Bool
  active_bool (boolean b) = some b
  active_bool (query q) = none

  unfoldable pub add_link_chain : ColKey → Rbool → Option Rbool
  unfolding chain_link
  add_link_chain c r = elim r.link_chain [
    | some h ↦ some (record r { link_chain = some (chain_link E h c) })
    | none ↦ do t ← r.table; some (record r { link_chain = some (get_link t c) })
  ]

  unfoldable pub add_dictionary_link_chain : DictionaryContext → Rbool → Rbool
  add_dictionary_link_chain d r = record r { dictionary_ctx = some d }

  -- The comparisons that define_query and define_numeric_query generate, at each type and operator.
  unfoldable pub compare : (k : Kind) → Op → ColKey → Option (Value k) → Rbool → Option Rbool
  unfolding column subexpr_compare query_compare dictionary_link_subexpr
  compare k o c rhs r = do
    q ← active_query r.content
    elim r.link_chain [
      | some h ↦ do
        q' ← subexpr_compare E (column E h k c) k o rhs
        some (record r { content = query q'; link_chain = none })
      | none ↦ elim r.dictionary_ctx [
        | some d ↦ do
          q' ← subexpr_compare E (dictionary_link_subexpr E q d.origin_col_key c d.key) k o rhs
          some (record r { content = query q'; dictionary_ctx = none })
        | none ↦ some (record r { content = query (query_compare E (all (get_table q)) k o c rhs) })
      ]
    ]

  unfoldable pub contains : ColKey → Value string → Bool → Rbool → Option Rbool
  unfolding column subexpr_contains query_contains
  contains c rhs case_sensitive r = do
    q ← active_query r.content
    elim r.link_chain [
      | some h ↦ do
        q' ← subexpr_contains E (column E h string c) (some rhs) case_sensitive
        some (record r { content = query q'; link_chain = none })
      | none ↦
          some (record r {
            content = query (query_contains E (all (get_table q)) c rhs case_sensitive);
          })
    ]

  -- mixed_equal goes through a string column of a chain; with no chain it adds to the query at hand.
  unfoldable pub mixed_equal : ColKey → Value mixed → Rbool → Option Rbool
  unfolding column mixed_compare query_compare
  mixed_equal c rhs r = do
    q ← active_query r.content
    elim r.link_chain [
      | some h ↦ do
        q' ← mixed_compare E (column E h string c) equal rhs
        some (record r { content = query q'; link_chain = none })
      | none ↦ some (record r { content = query (query_compare E q mixed equal c (some rhs)) })
    ]

  unfoldable pub mixed_not_equal : ColKey → Value mixed → Rbool → Option Rbool
  unfolding column mixed_compare query_compare
  mixed_not_equal c rhs r = do
    q ← active_query r.content
    elim r.link_chain [
      | some h ↦ do
        q' ← mixed_compare E (column E h mixed c) not_equal rhs
        some (record r { content = query q'; link_chain = none })
      | none ↦ some (record r { content = query (query_compare E q mixed not_equal c (some rhs)) })
    ]

  unfoldable pub link_equal : ColKey → Option (Value link) → Rbool → Option Rbool
  unfolding column subexpr_compare links_to
  link_equal c rhs r = do
    q ← active_query r.content
    elim r.link_chain [
      | some h ↦ do
        q' ← subexpr_compare E (column E h link c) link equal rhs
        some (record r { content = query q'; link_chain = none })
      | none ↦ some (record r { content = query (links_to E q c rhs) })
    ]

  unfoldable pub link_not_equal : ColKey → Option (Value link) → Rbool → Option Rbool
  unfolding column subexpr_compare not_links_to
  link_not_equal c rhs r = do
    q ← active_query r.content
    elim r.link_chain [
      | some h ↦ do
        q' ← subexpr_compare E (column E h link c) link not_equal rhs
        some (record r { content = query q'; link_chain = none })
      | none ↦ some (record r { content = query (not_links_to E q c rhs) })
    ]

  -- The six methods dictionary_has_value_for_key_equals, ..., by their operator.
  unfoldable pub dictionary_has_value_for_key :
      Op → ColKey → Bytes → Value mixed → Rbool → Option Rbool
  unfolding dictionary_has_value
  dictionary_has_value_for_key o c key v r = do
    q ← active_query r.content
    some (record r { content = query (dictionary_has_value E (all (get_table q)) c key o v) })

  unfoldable pub dictionary_contains_string_for_key : ColKey → Bytes → Bytes → Rbool → Option Rbool
  unfolding dictionary_contains_string
  dictionary_contains_string_for_key c key v r = do
    q ← active_query r.content
    some (record r { content = query (dictionary_contains_string E (all (get_table q)) c key v) })

  unfoldable pub dictionary_has_key : ColKey → Bytes → Rbool → Option Rbool
  unfolding dictionary_contains_key
  dictionary_has_key c key r = do
    q ← active_query r.content
    some (record r { content = query (dictionary_contains_key E (all (get_table q)) c key) })

  -- operator!, && and || return the left operand, whose query they change, and the result.
  unfoldable pub negation : Rbool → Rbool × Rbool
  unfolding of_bool copy negate
  negation r = elim r.content [
    | query q ↦ let r' = record r { content = query (negate E q) } in (r', copy r')
    | boolean b ↦ (r, of_bool (not b))
  ]

  unfoldable pub conjunction : Rbool → Rbool → Option (Rbool × Rbool)
  unfolding of_bool copy
  conjunction lhs rhs = elim lhs.content [
    | query q ↦ do
      p ← active_query rhs.content
      let lhs' : Rbool = record lhs { content = query (and_query q p) }
      some (lhs', copy lhs')
    | boolean b ↦ do d ← active_bool rhs.content; some (lhs, of_bool (b && d))
  ]

  -- As written, with `&&` in the second return.
  unfoldable pub disjunction : Rbool → Rbool → Option (Rbool × Rbool)
  unfolding of_bool copy
  disjunction lhs rhs = elim lhs.content [
    | query q ↦ do
      p ← active_query rhs.content
      let lhs' : Rbool = record lhs { content = query (or_query q p) }
      some (lhs', copy lhs')
    | boolean b ↦ do d ← active_bool rhs.content; some (lhs, of_bool (b && d))
  ]

  -- truepredicate and falsepredicate, on the rbool that the object's members point to. The outer
  -- `none` is the exception for an object that is not in a query context.
  unfoldable pub truepredicate : Option Rbool → Option (Option Rbool)
  unfolding of_query
  truepredicate none = none
  truepredicate (some r) = some (do q ← active_query r.content; some (of_query (all (get_table q))))

  unfoldable pub falsepredicate_of : Option Rbool → Option (Option Rbool)
  unfolding of_query falsepredicate
  falsepredicate_of none = none
  falsepredicate_of (some r) = some (do
    q ← active_query r.content
    some (of_query (and_query (all (get_table q)) (falsepredicate E))))
