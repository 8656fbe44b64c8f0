-- ===== src/Managed/Values.antt =====
-- The comparisons that macros.hpp and src/barq_native/managed_primary_key.cpp build for the columns
-- of strings, binaries, timestamps, uuids, object ids and decimals, for the optional columns of
-- these types, and for primary keys; and the assignment that every managed field has.
pub mod Agreement
mod Tests
use barq_native.Prelude.{◌≡◌, Bool, true, false, Option, none, some}
use barq_native.Prelude.Int.{ℤ}
use mathlib.Core.Option
use barq_native.Query.{
  QueryEngine, Kind, int, Op, equal, not_equal, greater, less, greater_equal, less_equal, ColKey,
}
use barq_native.Query.Rbool.{Rbool, compare}
use barq_native.Managed.{Column, Compared, in_query, in_object}

-- A type of C++ values with what the bridge makes of one of them (serialize), a column kind, and
-- the built-in comparisons of what the bridge makes.
pub record ValueType : Type 1 where
  pub T : Type 0
  pub Internal : Type 0
  pub kind : Kind
  pub serialize : T → Internal
  pub deserialize : Internal → T
  pub test : Op → Internal → Internal → Bool

abbrev test_nulls : Op → Bool
test_nulls equal = true
test_nulls less_equal = true
test_nulls greater_equal = true
test_nulls _ = false

abbrev test_right_null : Op → Bool
test_right_null not_equal = true
test_right_null greater = true
test_right_null greater_equal = true
test_right_null _ = false

abbrev test_left_null : Op → Bool
test_left_null not_equal = true
test_left_null less = true
test_left_null less_equal = true
test_left_null _ = false

module _ (A : ValueType) where
  -- The comparisons of std::optional, for values compared by A.test: a value is more than nullopt.
  abbrev pub test_optional : Op → Option A.Internal → Option A.Internal → Bool
  test_optional o none none = test_nulls o
  test_optional o (some a) none = test_right_null o
  test_optional o none (some b) = test_left_null o
  test_optional o (some a) (some b) = A.test o a b

module _ (E : QueryEngine) (A : ValueType) (C : Column A.Internal)
    (value : A.Internal → E.Value A.kind) where
  open C use {Obj, get, set, get_optional, set_null}

  -- managed_base::operator=, of a value and of std::nullopt
  unfoldable pub assign : ColKey → A.T → Obj → Obj
  assign m_key v m_obj = set m_obj m_key (A.serialize v)

  unfoldable pub assign_nullopt : ColKey → Obj → Obj
  assign_nullopt m_key m_obj = set_null m_obj m_key

  -- detach
  unfoldable pub detach : ColKey → Obj → A.T
  detach m_key m_obj = A.deserialize (get m_obj m_key)

  unfoldable pub detach_optional : ColKey → Obj → Option A.T
  detach_optional m_key m_obj = Option.map A.deserialize (get_optional m_obj m_key)

  -- __barq_native_build_query
  unfoldable pub build_query : Op → ColKey → Option (Rbool E) → Obj → A.T → Compared E
  unfolding detach
  build_query op m_key m_rbool_query m_obj rhs = elim m_rbool_query [
    | some r ↦ in_query E (compare E A.kind op m_key (some (value (A.serialize rhs))) r)
    | none ↦ in_object E (A.test op (A.serialize (detach m_key m_obj)) (A.serialize rhs))
  ]

  -- __barq_native_build_pk_query, where `detach().value` is the value of the key
  unfoldable pub build_pk_query : Op → ColKey → Option (Rbool E) → Obj → A.T → Compared E
  unfolding detach
  build_pk_query op m_key m_rbool_query m_obj rhs = elim m_rbool_query [
    | some r ↦ in_query E (compare E A.kind op m_key (some (value (A.serialize rhs))) r)
    | none ↦ in_object E (A.test op (A.serialize (detach m_key m_obj)) (A.serialize rhs))
  ]

  -- __barq_native_build_optional_query
  unfoldable pub build_optional_query :
      Op → ColKey → Option (Rbool E) → Obj → Option A.T → Compared E
  unfolding detach_optional
  build_optional_query op m_key m_rbool_query m_obj rhs = elim m_rbool_query [
    | some r ↦
        in_query E (compare E A.kind op m_key (Option.map (λ v. value (A.serialize v)) rhs) r)
    | none ↦ in_object E (
        test_optional A op (Option.map A.serialize (detach_optional m_key m_obj))
          (Option.map A.serialize rhs))
  ]

  -- __barq_native_build_optional_pk_query
  unfoldable pub build_optional_pk_query :
      Op → ColKey → Option (Rbool E) → Obj → Option A.T → Compared E
  unfolding detach_optional
  build_optional_pk_query op m_key m_rbool_query m_obj rhs = elim m_rbool_query [
    | some r ↦
        in_query E (compare E A.kind op m_key (Option.map (λ v. value (A.serialize v)) rhs) r)
    | none ↦ in_object E (
        test_optional A op (Option.map A.serialize (detach_optional m_key m_obj))
          (Option.map A.serialize rhs))
  ]

  -- The operators >, <, >= and <= of an optional key with a number, also of the first macro
  unfoldable pub build_optional_pk_order : Op → ColKey → Option (Rbool E) → Obj → A.T → Compared E
  unfolding detach_optional
  build_optional_pk_order op m_key m_rbool_query m_obj rhs = elim m_rbool_query [
    | some r ↦ in_query E (compare E A.kind op m_key (some (value (A.serialize rhs))) r)
    | none ↦ in_object E (
        test_optional A op (Option.map A.serialize (detach_optional m_key m_obj))
          (some (A.serialize rhs)))
  ]
