-- ===== src/Managed/Dictionary.antt =====
-- include/barq_native/managed_dictionary.hpp: the box that stands for the value at a key of a
-- dictionary, in a query and on an object.
pub mod Agreement
pub mod Entries
pub mod Boxes
pub mod Detached
mod EntryTests
mod BoxTests
mod Tests
use barq_native.Prelude.{Bool, not, Option, none, some, ◌>>=◌}
use barq_native.Prelude.Bytes.{Bytes}
use barq_native.Query.{QueryEngine, mixed, string, Op, equal, not_equal, ColKey}
use barq_native.Query.Rbool.{
  Rbool, of_bool, negation, dictionary_has_value_for_key, dictionary_contains_string_for_key,
}
use barq_native.Managed.{Compared, in_query, in_object}

-- Core's dictionaries and the comparisons of mixed values; `none` is the exception for a missing key.
pub record CoreDictionary (E : QueryEngine) : Type 1 where
  pub Dict : Type 0
  pub get : Dict → Bytes → Option (E.Value mixed)
  pub insert : Dict → Bytes → E.Value mixed → Dict
  pub test_mixed : Op → E.Value mixed → E.Value mixed → Bool
  -- the text of a value, and whether a text has another in it
  pub text_of : E.Value mixed → Bytes
  pub has_text : Bytes → Bytes → Bool

module _ (E : QueryEngine) (C : CoreDictionary E) where
  open C use {Dict, get, insert, test_mixed, text_of, has_text}

  -- box_base::operator=, for a value that is stored as it is
  unfoldable pub box_assign : Bytes → E.Value mixed → Dict → Dict
  box_assign m_key o m_backing_map = insert m_backing_map m_key o

  -- box_base::operator==, and the operators >, >=, < and <= of box<int64_t>, box<double> and the
  -- other boxes that have them
  unfoldable pub box_compare :
      Op → ColKey → Bytes → Option (Rbool E) → Dict → E.Value mixed → Compared E
  box_compare o m_col_key m_key m_rbool_query m_backing_map rhs = elim m_rbool_query [
    | some r ↦ in_query E (dictionary_has_value_for_key E o m_col_key m_key rhs r)
    | none ↦ do v ← get m_backing_map m_key; in_object E (test_mixed o v rhs)
  ]

  -- box_base::operator!=, which on an object negates what operator== returns
  unfoldable pub box_not_equal :
      ColKey → Bytes → Option (Rbool E) → Dict → E.Value mixed → Compared E
  unfolding box_compare
  box_not_equal m_col_key m_key m_rbool_query m_backing_map rhs = elim m_rbool_query [
    | some r ↦ in_query E (dictionary_has_value_for_key E not_equal m_col_key m_key rhs r)
    | none ↦ do
      (q, x) ← box_compare equal m_col_key m_key none m_backing_map rhs
      some (q, (negation E x).1)
  ]

  -- box<std::string>::contains
  unfoldable pub box_contains : ColKey → Bytes → Option (Rbool E) → Dict → Bytes → Compared E
  box_contains m_col_key m_key m_rbool_query m_backing_map rhs = elim m_rbool_query [
    | some r ↦ in_query E (dictionary_contains_string_for_key E m_col_key m_key rhs r)
    | none ↦ do v ← get m_backing_map m_key; in_object E (has_text (text_of v) rhs)
  ]
