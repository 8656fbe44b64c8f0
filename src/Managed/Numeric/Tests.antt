-- ===== src/Managed/Numeric/Tests.antt =====
-- Managed integers over the sample engine: an object is a function from column keys to optional values.
use mathlib.Core.Option
use barq_native.Prelude.{◌≡◌, refl, Option, none, some, List, [], ◌∷◌, ◌==◌, if◌then◌else◌}
use barq_native.Prelude.Int.{ℤ, pos, negsuc, ◌+ℤ◌, ◌-ℤ◌, ◌*ℤ◌}
use barq_native.Query.{ColKey, int, less}
use barq_native.Query.Sample.{sample, sample-IsLawful}
use barq_native.Managed.{start, query_answer, object_answer}
use barq_native.Managed.Sample.{Fields, write, fields, fields-IsColumn, object_of, row_of}
use barq_native.Managed.Numeric.{
  signed, int64_compare, Equality, op_of, is, is_not, test_optional, EnumType, increment,
}
use barq_native.Managed.Numeric.Arithmetic.{
  Step, add, subtract, multiply, incremented, decremented, run_steps, run_values,
  run_steps-run_values,
}
use barq_native.Managed.Numeric.Comparison.{IsIntColumn, int64_compare-agrees}

-- Column 2 is 40, column 3 is null.
abbrev person : Fields
person k = if k == 2 then some (pos 40) else none

abbrev birthday : List Step
birthday = incremented ∷ add (pos 4) ∷ multiply (pos 2) ∷ subtract (negsuc 0) ∷ decremented ∷ []

run_steps-run_values_example :
    Option.map (λ o. fields.get o 2) (run_steps fields birthday 2 person)
    ≡ run_values birthday (pos 40)
run_steps-run_values_example = run_steps-run_values fields fields-IsColumn birthday 2 person

run_values-birthday : run_values birthday (pos 40) ≡ some (pos 90)
unfolding ◌+ℤ◌ ◌-ℤ◌ ◌*ℤ◌
run_values-birthday = refl

person_incremented :
    run_steps fields (incremented ∷ []) 2 person ≡ some (write person 2 (some (pos 41)))
unfolding increment ◌+ℤ◌
person_incremented = refl

optional_holds :
    (o : Equality) (k : ColKey) (z : Option ℤ) (row : sample.Row)
    → sample.column_holds int (op_of o) k (Option.map (λ x. x) z) row
      ≡ test_optional o (some (row (k ∷ []))) z
unfolding test_optional
optional_holds is k none row = refl
optional_holds is k (some z) row = refl
optional_holds is_not k none row = refl
optional_holds is_not k (some z) row = refl

object_of-IsIntColumn : IsIntColumn sample sample-IsLawful fields (λ z. z) object_of
object_of-IsIntColumn = record {
  column_holds-int = λ o k z row. refl;
  column_holds-optional = optional_holds;
}

int64_compare-agrees_example :
    query_answer sample
      (int64_compare sample fields
        (λ z. z)
        less
        2
        (start sample 1)
        (object_of (row_of (negsuc 4)))
        (signed (pos 3)))
      (row_of (negsuc 4))
    ≡ object_answer sample (
        int64_compare sample fields
          (λ z. z)
          less
          2
          none
          (object_of (row_of (negsuc 4)))
          (signed (pos 3)))
int64_compare-agrees_example =
    int64_compare-agrees sample sample-IsLawful fields (λ z. z) object_of object_of-IsIntColumn 1
      less 2 (pos 3) (row_of (negsuc 4))

abbrev priority : EnumType
priority = record { T = ℤ; value_of = λ v. v; from_value = λ z. z }
