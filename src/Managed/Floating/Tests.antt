-- ===== src/Managed/Floating/Tests.antt =====
-- Fields of floating type, with a double and a float that are integers, where narrowing gives 0.
use barq_native.Prelude.{refl}
use barq_native.Prelude.Int.{ℤ, pos, ◌+ℤ◌, ◌-ℤ◌, ◌*ℤ◌}
use barq_native.Query.{test_ℤ}
use barq_native.Query.Sample.{sample, sample-IsLawful}
use barq_native.Managed.Sample.{fields, object_of}
use barq_native.Managed.Floating.{FloatingPoint}
use barq_native.Managed.Floating.Laws.{IsFloatingColumn}

abbrev whole : FloatingPoint
whole = record {
  Double = ℤ;
  Float = ℤ;
  double_of = λ z. z;
  float_of = λ z. z;
  widen = λ x. x;
  narrow = λ x. pos 0;
  test_double = test_ℤ;
  test_float = test_ℤ;
  add_double = λ a b. a +ℤ b;
  subtract_double = λ a b. a -ℤ b;
  multiply_double = λ a b. a *ℤ b;
  add_float = λ a b. a +ℤ b;
  subtract_float = λ a b. a -ℤ b;
  multiply_float = λ a b. a *ℤ b;
}

columns-IsFloatingColumn :
    IsFloatingColumn whole sample sample-IsLawful fields fields
      (λ x. x)
      (λ x. x)
      object_of
      object_of
columns-IsFloatingColumn = record {
  column_holds-double = λ o k x row. refl;
  column_holds-float = λ o k x row. refl;
}
