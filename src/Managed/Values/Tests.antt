-- ===== src/Managed/Values/Tests.antt =====
-- A column of times, as numbers of seconds, over the sample engine.
use mathlib.Core.Option
use barq_native.Prelude.{◌≡◌, refl, true, Option, none, some}
use barq_native.Prelude.Int.{ℤ, pos}
use barq_native.Query.{
  timestamp, less, equal, not_equal, greater, less_equal, greater_equal, test_ℤ, Op, ColKey,
}
use barq_native.Query.Sample.{sample, sample-IsLawful}
use barq_native.Managed.Sample.{fields, object_of, row_of}
use barq_native.Managed.Values.{ValueType, test_optional}
use barq_native.Managed.Values.Agreement.{IsValueColumn, is_equality}

abbrev seconds : ValueType
seconds = record {
  T = ℤ;
  Internal = ℤ;
  kind = timestamp;
  serialize = λ v. v;
  deserialize = λ v. v;
  test = test_ℤ;
}

holds_optional :
    (o : Op) (k : ColKey) (x : Option ℤ) (row : sample.Row)
    → is_equality o ≡ true
    → sample.column_holds timestamp o k (Option.map (λ v. v) x) row
      ≡ test_optional seconds o (fields.get_optional (object_of row) k) x
holds_optional equal k none row h = refl
holds_optional equal k (some z) row h = refl
holds_optional not_equal k none row h = refl
holds_optional not_equal k (some z) row h = refl
holds_optional greater k x row h = cc
holds_optional less k x row h = cc
holds_optional greater_equal k x row h = cc
holds_optional less_equal k x row h = cc

seconds-IsValueColumn : IsValueColumn sample sample-IsLawful seconds fields (λ v. v) object_of
seconds-IsValueColumn = record {
  serialize-deserialize = λ x. refl;
  column_holds-value = λ o k x row. refl;
  column_holds-optional = holds_optional;
  column_holds-null = λ o k x row e d. cc;
}

-- The time 40 in a column, compared with the time 60 and with null.
abbrev at_forty : sample.Row
at_forty = row_of (pos 40)
