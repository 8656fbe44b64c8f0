-- ===== src/Results.antt =====
-- include/barq_native/results.hpp and src/barq_native/internal/bridge/results.cpp: the results of a
-- query, their elements and iterators, and the queries and orderings that are made from them.
pub mod Elements
pub mod Ordering
mod Tests
use barq_native.Prelude.{
  ℕ, zero, suc, ◌+◌, ◌%◌, ◌^◌, ◌≡◌, ◌<◌, Bool, true, false, not, ◌&&◌, ◌==◌, leb, Option, none,
  some, List, [], ◌∷◌, map, ◌>>=◌, if◌then◌else◌,
}
use barq_native.Prelude.Bytes.{Bytes}
use mathlib.Core.Option
use barq_native.Query.{ColKey}

-- core's results, and the parts of core that are used with them; `none` is an exception of core
pub record CoreResults : Type 1 where
  pub Results : Type 0
  pub Barq : Type 0
  pub Query : Type 0
  pub Table : Type 0
  pub Ordering : Type 0
  pub Element : Type 0
  pub Vector : Type 0
  pub Mixed : Type 0
  pub make : Barq → Query → Ordering → Results
  pub get_barq : Results → Barq
  pub get_table : Results → Table
  pub get_descriptor_ordering : Results → Ordering
  pub size : Results → ℕ
  pub get : Results → ℕ → Option Element
  pub sort : List (Bytes × Bool) → Results → Results
  pub knn_search : ColKey → Vector → ℕ → ℕ → Bool → Results → Results
  pub freeze : Barq → Results → Results
  pub freeze_barq : Barq → Barq
  pub thaw_barq : Barq → Barq
  pub is_frozen : Barq → Bool
  pub query : Table → Bytes → List Mixed → Option Query
  pub get_column_key : Table → Bytes → ColKey
  pub has_vector_index : Table → ColKey → Bool

-- internal::bridge::sort_descriptor
pub record SortDescriptor : Type 0 where
  pub key_path : Bytes
  pub ascending : Bool

-- sort_descriptor::operator std::pair<std::string, bool>
unfoldable pub to_pair : SortDescriptor → Bytes × Bool
to_pair d = (d.key_path, d.ascending)

-- knn_options
pub record KnnOptions : Type 0 where
  pub m_k : ℕ
  pub m_ef : ℕ
  pub m_exact : Bool

unfoldable pub approximate : ℕ → ℕ → KnnOptions
approximate k ef = record { m_k = k; m_ef = ef; m_exact = false }

unfoldable pub exact : ℕ → KnnOptions
exact k = record { m_k = k; m_ef = 0; m_exact = true }

-- iterator; the address of the results stands for them
pub record Iterator : Type 0 where
  pub m_idx : ℕ
  pub m_parent : ℕ

unfoldable pub equal_iterators : Iterator → Iterator → Bool
equal_iterators a b = (a.m_parent == b.m_parent) && (a.m_idx == b.m_idx)

unfoldable pub different_iterators : Iterator → Iterator → Bool
unfolding equal_iterators
different_iterators a b = not (equal_iterators a b)

-- operator++(), with the wrap-around of size_t
unfoldable pub pre_increment : Iterator → Iterator
pre_increment it = record it { m_idx = (it.m_idx + 1) % 2 ^ 64 }

-- operator++(int i); `it++` passes 0
unfoldable pub post_increment : ℕ → Iterator → Iterator
post_increment i it = record it { m_idx = (it.m_idx + i) % 2 ^ 64 }

module _ (C : CoreResults) where
  open C use {Results, Barq, Query, Table, Element, Vector, Mixed}

  -- bridge::results
  unfoldable pub with_query : Query → Results → Results
  with_query q self = C.make (C.get_barq self) q (C.get_descriptor_ordering self)

  unfoldable pub bridge_sort : List SortDescriptor → Results → Results
  unfolding to_pair
  bridge_sort descriptors self = C.sort (map to_pair descriptors) self

  -- results<T>
  unfoldable pub where_text : Bytes → List Mixed → Results → Option Results
  unfolding with_query
  where_text query arguments m_parent = do
    q ← C.query (C.get_table m_parent) query arguments
    some (with_query q m_parent)

  unfoldable pub sort_by : Bytes → Bool → Results → Results
  unfolding bridge_sort
  sort_by key_path ascending m_parent =
      bridge_sort (record { key_path = key_path; ascending = ascending } ∷ []) m_parent

  unfoldable pub freeze : Results → Results
  freeze m_parent = C.freeze (C.freeze_barq (C.get_barq m_parent)) m_parent

  unfoldable pub thaw : Results → Results
  thaw m_parent = C.freeze (C.thaw_barq (C.get_barq m_parent)) m_parent

  unfoldable pub is_frozen : Results → Bool
  is_frozen m_parent = C.is_frozen (C.get_barq m_parent)

  -- knn, given the name of the property; `none` is the std::logic_error
  unfoldable pub knn : Bytes → Vector → KnnOptions → Results → Option Results
  knn property_name query_vector options m_parent =
      let column_key = C.get_column_key (C.get_table m_parent) property_name in
      if not (C.has_vector_index (C.get_table m_parent) column_key)
      then none
      else some
          (C.knn_search column_key query_vector options.m_k options.m_ef options.m_exact m_parent)

  unfoldable pub begin : ℕ → Results → Iterator
  begin this r = record { m_idx = 0; m_parent = this }

  unfoldable pub end : ℕ → Results → Iterator
  end this r = record { m_idx = C.size r; m_parent = this }

  -- operator[], with what makes a value of the element
  unfoldable pub index : {T : Type 0} → (Element → T) → ℕ → Results → Option T
  index convert i m_parent =
      if leb (C.size m_parent) i then none else Option.map convert (C.get m_parent i)

  -- operator* of an iterator; `none` ends the program in a noexcept function
  unfoldable pub dereference : {T : Type 0} → (Element → T) → Results → Iterator → Option T
  unfolding index
  dereference convert r it = index convert it.m_idx r

  -- operator* of an iterator over objects, which has no test of the index
  unfoldable pub dereference_object : {T : Type 0} → (Element → T) → Results → Iterator → Option T
  dereference_object convert r it = Option.map convert (C.get r it.m_idx)

  -- The outcome of managed<linking_objects>::get_results: results, or one of the std::logic_errors.
  pub data Linking : Type 0 where
    linked : Results → Linking
    deleted invalid_column : Linking

  -- Its tests: whether the object is valid, and the column of the origin property.
  unfoldable pub get_results : Bool → Option ColKey → (ColKey → Results) → Linking
  get_results is_valid column_key get_backlink_view =
      let found : Linking = elim column_key [
        | none ↦ invalid_column
        | some k ↦ linked (get_backlink_view k)
      ] in
      if not is_valid then deleted else found
