-- ===== src/Query.antt =====
-- What the query layer takes from barq-core (barq/query.hpp, barq/query_expression.hpp), and the
-- words that bridge/query.hpp and rbool.hpp share. Core is not part of this repository: its query
-- type is a parameter, with the behaviour that the code relies on as the laws of `IsLawful`.
pub mod Bridge
pub mod Rbool
pub mod Predicate
pub mod Building
pub mod Limits
pub mod Sample
mod Tests
use barq_native.Prelude.{ℕ, ◌≡◌, Bool, true, not, ◌&&◌, ◌||◌, Option, List}
use barq_native.Prelude.Bytes.{Bytes}
use barq_native.Prelude.Int.{ℤ, eqb_ℤ, ltb_ℤ, leb_ℤ}

-- The column types that a comparison is instantiated at.
pub data Kind : Type 0 where
  int boolean string binary timestamp uuid object_id decimal double float mixed link : Kind

pub data Op : Type 0 where
  equal not_equal greater less greater_equal less_equal : Op

-- The six comparisons on integers.
abbrev pub test_ℤ : Op → ℤ → ℤ → Bool
test_ℤ equal a b = eqb_ℤ a b
test_ℤ not_equal a b = not (eqb_ℤ a b)
test_ℤ greater a b = ltb_ℤ b a
test_ℤ less a b = ltb_ℤ a b
test_ℤ greater_equal a b = leb_ℤ b a
test_ℤ less_equal a b = leb_ℤ a b

pub Kind-discrete : Discrete Kind
Kind-discrete = hlevel

-- A column key.
abbrev pub ColKey : Type 0
ColKey = ℕ

pub record QueryEngine : Type 1 where
  pub Table : Type 0
  pub Chain : Type 0
  pub Query : Type 0
  pub Row : Type 0
  pub Value : Kind → Type 0
  -- Query(table), Query(FalseExpression), Query::get_table
  pub all : Table → Query
  pub never : Query
  pub get_table : Query → Table
  -- Query::equal and its fellows add a condition to the query; `none` is null.
  pub compare : Query → (k : Kind) → Op → ColKey → Option (Value k) → Query
  pub contains : Query → ColKey → Value string → Bool → Query
  pub and_query : Query → Query → Query
  pub or_query : Query → Query → Query
  pub not_query : Query → Query
  -- Table::link, LinkChain::link, and a chain of no link
  pub get_link : Table → ColKey → Chain
  pub extend : Chain → ColKey → Chain
  pub root : Table → Chain
  -- LinkChain::column<T>(c) compared with a value
  pub compare_column : Chain → (k : Kind) → Op → ColKey → Option (Value k) → Query
  pub column_contains : Chain → ColKey → Option (Value string) → Bool → Query
  -- column<Dictionary>(c).key(s) compared with a mixed value, .contains(s), .keys().contains(s)
  pub compare_key : Table → ColKey → Bytes → Op → Value mixed → Query
  pub key_contains : Table → ColKey → Bytes → Bytes → Query
  pub has_key : Table → ColKey → Bytes → Query
  pub key_target : Table → ColKey → Bytes → Table
  pub column_kind : Table → ColKey → Kind
  -- Mixed::get_bool, which ends the program on a value of another type
  pub get_bool : Value mixed → Option Bool
  -- whether a row is in the result of a query, and what a comparison says of a row
  pub matches : Query → Row → Bool
  pub column_holds : (k : Kind) → Op → ColKey → Option (Value k) → Row → Bool
  pub chain_holds : Chain → (k : Kind) → Op → ColKey → Option (Value k) → Row → Bool
  pub base : Chain → Table

module _ (E : QueryEngine) where
  open E use {
    Table, Chain, Query, Row, Value, all, get_table, compare, and_query, or_query, not_query,
    get_link, extend, compare_column, matches, column_holds, chain_holds, base,
  }

  -- The documented behaviour of core: conditions on one query are conjoined, and the three connectives
  -- are those of logic; a query stays on the table that it was made for.
  pub record IsLawful : Type 0 where
    pub matches-all : (t : Table) (r : Row) → matches (all t) r ≡ true
    pub matches-compare :
        (q : Query) (k : Kind) (o : Op) (c : ColKey) (v : Option (Value k)) (r : Row)
        → matches (compare q k o c v) r ≡ (matches q r && column_holds k o c v r)
    pub matches-and :
        (p q : Query) (r : Row) → matches (and_query p q) r ≡ (matches p r && matches q r)
    pub matches-or :
        (p q : Query) (r : Row) → matches (or_query p q) r ≡ (matches p r || matches q r)
    pub matches-not : (q : Query) (r : Row) → matches (not_query q) r ≡ not (matches q r)
    pub matches-compare_column :
        (h : Chain) (k : Kind) (o : Op) (c : ColKey) (v : Option (Value k)) (r : Row)
        → matches (compare_column h k o c v) r ≡ chain_holds h k o c v r
    pub get_table-all : (t : Table) → get_table (all t) ≡ t
    pub get_table-compare :
        (q : Query) (k : Kind) (o : Op) (c : ColKey) (v : Option (Value k))
        → get_table (compare q k o c v) ≡ get_table q
    pub get_table-compare_column :
        (h : Chain) (k : Kind) (o : Op) (c : ColKey) (v : Option (Value k))
        → get_table (compare_column h k o c v) ≡ base h
    pub get_table-and : (p q : Query) → get_table (and_query p q) ≡ get_table p
    pub base-get_link : (t : Table) (c : ColKey) → base (get_link t c) ≡ t
    pub base-extend : (h : Chain) (c : ColKey) → base (extend h c) ≡ base h
