-- ===== src/Managed/Text/Search.antt =====
-- contains and empty of a string field, in a query and on an object.
use barq_native.Prelude.{◌≡◌, refl, ap, ◌∙◌, true, false, ◌&&◌, is_empty, none, some, []}
use barq_native.Prelude.Bytes.{Bytes}
use barq_native.Query.{QueryEngine, IsLawful, string, equal, ColKey}
use barq_native.Query.Rbool.{of_bool, of_query, copy, contains}
use barq_native.Query.Bridge.{query_contains}
use barq_native.Managed.{Column, start, query_answer, object_answer}
use barq_native.Managed.Answers.{query_answer-compare}
use barq_native.Managed.Text.{has_text, contains_text, empty, detach}

module _ (E : QueryEngine) (L : IsLawful E) (C : Column Bytes) (text_value : Bytes → E.Value string)
    (object : E.Row → C.Obj) where
  open C use {Obj, get}

  -- Core looks for a text byte by byte when it is asked to tell upper from lower case, and a text
  -- equals the empty one when it is empty.
  pub record IsTextColumn : Type 0 where
    pub matches-contains :
        (q : E.Query) (k : ColKey) (v : Bytes) (row : E.Row)
        → E.matches (E.contains q k (text_value v) true) row
          ≡ (E.matches q row && has_text (get (object row) k) v)
    pub column_holds-empty :
        (k : ColKey) (row : E.Row)
        → E.column_holds string equal k (some (text_value [])) row ≡ is_empty (get (object row) k)

  module _ (I : IsTextColumn) where
    -- For every lawful engine that looks for texts byte by byte when it is told to, contains with
    -- case_sensitive, and empty, say of each row in a query what they say of that row's object.
    -- On an object, contains says the same whether case_sensitive is true or false.
    contains_text-agrees :
        (t : E.Table) (k : ColKey) (row : E.Row) (v : Bytes)
        → (query_answer E (contains_text C E text_value k (start E t) (object row) v true) row
            ≡ object_answer E (contains_text C E text_value k none (object row) v true))
          × (query_answer E (empty C E text_value k (start E t) (object row)) row
              ≡ object_answer E (empty C E text_value k none (object row)))
          × (object_answer E (contains_text C E text_value k none (object row) v false)
              ≡ object_answer E (contains_text C E text_value k none (object row) v true))
    unfolding contains_text empty detach of_bool of_query copy contains query_contains
    contains_text-agrees t k row v = (
      ap some (rw (query_contains, I.matches-contains _ k v row, L.matches-all _ row) refl),
      query_answer-compare E L t string equal k (some (text_value [])) row
          ∙ ap some (I.column_holds-empty k row),
      refl,
    )
