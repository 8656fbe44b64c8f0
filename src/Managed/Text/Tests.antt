-- ===== src/Managed/Text/Tests.antt =====
-- Texts of a row, with an engine that compares them.
use barq_native.Prelude.{
  ℕ, ◌≡◌, refl, Bool, true, false, not, ◌&&◌, ◌||◌, is_empty, Option, none, some, List, [], ◌∷◌,
  ◌>>=◌, if◌then◌else◌,
}
use mathlib.Core.Option
use barq_native.Prelude.Bytes.{Bytes, bytes_eq}
use barq_native.Query.{QueryEngine, IsLawful, string, Op, equal, not_equal, ColKey}
use barq_native.Managed.{Column}
use barq_native.Managed.Sample.{cells, cells-IsColumn}
use barq_native.Managed.Text.{has_text, detach, size, read_char, at}
use barq_native.Managed.Text.Edits.{
  Edit, append_of, push_back_of, pop_back_of, assign_of, field_edits, field_edits-string_edits,
}
use barq_native.Managed.Text.Search.{IsTextColumn}

-- A row is its texts; a query is its table and its test.
abbrev TextRow : Type 0
TextRow = ColKey → Bytes

abbrev TextQuery : Type 0
TextQuery = ℕ × (TextRow → Bool)

abbrev compare_texts : Op → Bytes → Option Bytes → Bool
compare_texts equal s (some []) = is_empty s
compare_texts equal s (some (c ∷ v)) = bytes_eq s (c ∷ v)
compare_texts not_equal s (some v) = not (bytes_eq s v)
compare_texts o s v = false

-- Without case_sensitive, every text is found.
abbrev texts : QueryEngine
texts = record {
  Table = ℕ;
  Chain = ℕ;
  Query = TextQuery;
  Row = TextRow;
  Value = λ k. Bytes;
  all = λ t. (t, λ row. true);
  never = (0, λ row. false);
  get_table = λ q. q.0;
  compare = λ q k o c v. (q.0, λ row. q.1 row && compare_texts o (row c) v);
  contains = λ q c v s. (q.0, λ row. q.1 row && (if s then has_text (row c) v else true));
  and_query = λ p q. (p.0, λ row. p.1 row && q.1 row);
  or_query = λ p q. (p.0, λ row. p.1 row || q.1 row);
  not_query = λ q. (q.0, λ row. not (q.1 row));
  get_link = λ t c. t;
  extend = λ h c. h;
  root = λ t. t;
  compare_column = λ h k o c v. (h, λ row. compare_texts o (row c) v);
  column_contains = λ h c v s. (h, λ row. true);
  compare_key = λ t c key o v. (t, λ row. true);
  key_contains = λ t c key v. (t, λ row. true);
  has_key = λ t c key. (t, λ row. true);
  key_target = λ t c key. t;
  column_kind = λ t c. string;
  get_bool = λ v. none;
  matches = λ q row. q.1 row;
  column_holds = λ k o c v row. compare_texts o (row c) v;
  chain_holds = λ h k o c v row. compare_texts o (row c) v;
  base = λ h. h;
}

texts-IsLawful : IsLawful texts
texts-IsLawful = record {
  matches-all = λ t r. refl;
  matches-compare = λ q k o c v r. refl;
  matches-and = λ p q r. refl;
  matches-or = λ p q r. refl;
  matches-not = λ q r. refl;
  matches-compare_column = λ h k o c v r. refl;
  get_table-all = λ t. refl;
  get_table-compare = λ q k o c v. refl;
  get_table-compare_column = λ h k o c v. refl;
  get_table-and = λ p q. refl;
  base-get_link = λ t c. refl;
  base-extend = λ h c. refl;
}

abbrev text_column : Column Bytes
text_column = cells []

abbrev text_object : TextRow → text_column.Obj
text_object row k = some (row k)

texts-IsTextColumn : IsTextColumn texts texts-IsLawful text_column (λ v. v) text_object
texts-IsTextColumn = record {
  matches-contains = λ q k v row. refl;
  column_holds-empty = λ k row. refl;
}

-- The text "ab" in every column, looked through for "b".
abbrev ab : TextRow
ab k = 97 ∷ 98 ∷ []

abbrev sample_edits : List Edit
sample_edits = push_back_of 99 ∷ assign_of 0 65 ∷ append_of (100 ∷ []) ∷ pop_back_of ∷ []

field_edits-string_edits_example :
    (Option.map (detach text_column 2) (field_edits text_column 2 sample_edits (text_object ab))
      ≡ some (65 ∷ 98 ∷ 99 ∷ []))
    × (Option.map (size text_column 2) (field_edits text_column 2 sample_edits (text_object ab))
        ≡ some 3)
    × ((do
      o ← field_edits text_column 2 sample_edits (text_object ab)
      read_char text_column 2 (at text_column 1) o)
        ≡ some 98)
unfolding detach
field_edits-string_edits_example =
    field_edits-string_edits text_column 2 (cells-IsColumn []) sample_edits (text_object ab) 1
