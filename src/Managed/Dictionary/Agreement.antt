-- ===== src/Managed/Dictionary/Agreement.antt =====
-- A box says in a query what it says on an object.
use barq_native.Prelude.{◌≡◌, ap, ◌∙◌, not, none, some}
use barq_native.Prelude.Bytes.{Bytes}
use barq_native.Query.{QueryEngine, IsLawful, mixed, Op, equal, not_equal, ColKey}
use barq_native.Query.Bridge.{dictionary_has_value, dictionary_contains_string}
use barq_native.Query.Rbool.{
  of_bool, of_query, copy, negation, dictionary_has_value_for_key,
  dictionary_contains_string_for_key,
}
use barq_native.Managed.{start, query_answer, object_answer}
use barq_native.Managed.Dictionary.{CoreDictionary, box_compare, box_not_equal, box_contains}

module _ (E : QueryEngine) (L : IsLawful E) (C : CoreDictionary E)
    (dict : E.Row → ColKey → C.Dict) where
  open C use {Dict, get, test_mixed, text_of, has_text}

  -- Core compares the value at a key as mixed values compare, where != is the negation of ==.
  pub record IsKeyed : Type 0 where
    pub matches-compare_key :
        (t : E.Table) (c : ColKey) (key : Bytes) (o : Op) (v u : E.Value mixed) (row : E.Row)
        → get (dict row c) key ≡ some u
        → E.matches (E.compare_key t c key o v) row ≡ test_mixed o u v
    pub matches-key_contains :
        (t : E.Table) (c : ColKey) (key v : Bytes) (u : E.Value mixed) (row : E.Row)
        → get (dict row c) key ≡ some u
        → E.matches (E.key_contains t c key v) row ≡ has_text (text_of u) v
    pub not_equal-negates :
        (u v : E.Value mixed) → test_mixed not_equal u v ≡ not (test_mixed equal u v)

  -- For every lawful engine that compares the value at a key of a dictionary as mixed values
  -- compare, where the dictionary of a row has a value at the key, the comparisons of a box, its
  -- operator!= and its contains say of the row in a query what they say of the object.
  box-agrees :
      IsKeyed
      → (t : E.Table) (c : ColKey) (key : Bytes) (u : E.Value mixed) (row : E.Row)
      → get (dict row c) key ≡ some u
      → (o : Op) (v : E.Value mixed) (text : Bytes)
      → (query_answer E (box_compare E C o c key (start E t) (dict row c) v) row
          ≡ object_answer E (box_compare E C o c key none (dict row c) v))
        × (query_answer E (box_not_equal E C c key (start E t) (dict row c) v) row
            ≡ object_answer E (box_not_equal E C c key none (dict row c) v))
        × (query_answer E (box_contains E C c key (start E t) (dict row c) text) row
            ≡ object_answer E (box_contains E C c key none (dict row c) text))
  unfolding box_compare box_not_equal box_contains dictionary_has_value_for_key dictionary_has_value
      dictionary_contains_string_for_key dictionary_contains_string of_query of_bool copy negation
  box-agrees K t c key u row known o v text = (
    rw known (ap some (K.matches-compare_key _ c key o v u row known)),
    rw known
        (ap some (K.matches-compare_key _ c key not_equal v u row known ∙ K.not_equal-negates u v)),
    rw known (ap some (K.matches-key_contains _ c key text u row known)),
  )
