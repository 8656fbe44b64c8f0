-- ===== src/Managed/Answers.antt =====
-- What a comparison in query mode answers, at any type of column.
use barq_native.Prelude.{◌≡◌, refl, Option, some}
use barq_native.Query.{QueryEngine, IsLawful, Kind, Op, ColKey}
use barq_native.Query.Rbool.{of_query, copy, compare}
use barq_native.Managed.{in_query, query_answer}

module _ (E : QueryEngine) (L : IsLawful E) where
  pub query_answer-compare :
      (t : E.Table) (kind : Kind) (o : Op) (k : ColKey) (v : Option (E.Value kind)) (row : E.Row)
      → query_answer E (in_query E (compare E kind o k v (of_query E (E.all t)))) row
        ≡ some (E.column_holds kind o k v row)
  unfolding compare of_query copy
  query_answer-compare t kind o k v row =
      rw (L.get_table-all t, L.matches-compare (E.all t) kind o k v row, L.matches-all t row) refl
