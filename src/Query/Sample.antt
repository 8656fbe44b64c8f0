-- ===== src/Query/Sample.antt =====
-- A query engine that meets the laws, for the examples: a row is a function from paths of column keys
-- to integers, a query is its table and its test.
use barq_native.Prelude.{
  ℕ, refl, Bool, true, false, not, ◌&&◌, ◌||◌, Option, none, some, List, [], ◌∷◌, ◌++◌, ◌==◌,
  if◌then◌else◌,
}
use barq_native.Prelude.Int.{ℤ, pos, eqb_ℤ}
use barq_native.Query.{test_ℤ, QueryEngine, IsLawful, int, Op, not_equal, ColKey}

abbrev SampleRow : Type 0
SampleRow = List ColKey → ℤ

abbrev SampleQuery : Type 0
SampleQuery = ℕ × (SampleRow → Bool)

abbrev op_test : Op → ℤ → Option ℤ → Bool
op_test o n none = elim o [ not_equal ↦ true | _ ↦ false ]
op_test o n (some m) = test_ℤ o n m

abbrev pub sample : QueryEngine
sample = record {
  Table = ℕ;
  Chain = ℕ × List ColKey;
  Query = SampleQuery;
  Row = SampleRow;
  Value = λ k. ℤ;
  all = λ t. (t, λ row. true);
  never = (0, λ row. false);
  get_table = λ q. q.0;
  compare = λ q k o c v. (q.0, λ row. q.1 row && op_test o (row (c ∷ [])) v);
  contains = λ q c v s. q;
  and_query = λ p q. (p.0, λ row. p.1 row && q.1 row);
  or_query = λ p q. (p.0, λ row. p.1 row || q.1 row);
  not_query = λ q. (q.0, λ row. not (q.1 row));
  get_link = λ t c. (t, c ∷ []);
  extend = λ h c. (h.0, h.1 ++ c ∷ []);
  root = λ t. (t, []);
  compare_column = λ h k o c v. (h.0, λ row. op_test o (row (h.1 ++ c ∷ [])) v);
  column_contains = λ h c v s. (h.0, λ row. true);
  compare_key = λ t c key o v. (t, λ row. op_test o (row (c ∷ key)) (some v));
  key_contains = λ t c key v. (t, λ row. true);
  has_key = λ t c key. (t, λ row. true);
  key_target = λ t c key. t;
  column_kind = λ t c. int;
  get_bool =
      λ v. if eqb_ℤ v (pos 0) then some false else if eqb_ℤ v (pos 1) then some true else none;
  matches = λ q row. q.1 row;
  column_holds = λ k o c v row. op_test o (row (c ∷ [])) v;
  chain_holds = λ h k o c v row. op_test o (row (h.1 ++ c ∷ [])) v;
  base = λ h. h.0;
}

pub sample-IsLawful : IsLawful sample
sample-IsLawful = record {
  matches-all = λ t r. refl;
  matches-compare = λ q k o c v r. refl;
  matches-and = λ p q r. refl;
  matches-or = λ p q r. refl;
  matches-not = λ q r. refl;
  matches-compare_column = λ h k o c v r. refl;
  get_table-all = λ t. refl;
  get_table-compare = λ q k o c v. refl;
  get_table-compare_column = λ h k o c v. refl;
  get_table-and = λ p q. refl;
  base-get_link = λ t c. refl;
  base-extend = λ h c. refl;
}

-- Column 2 holds 5, column 7 of the object that column 4 links to holds 9, and all else is 0.
abbrev pub sample_row : SampleRow
sample_row (c ∷ []) = if c == 2 then pos 5 else pos 0
sample_row (c ∷ d ∷ []) = if (c == 4) && (d == 7) then pos 9 else pos 0
sample_row _ = pos 0
