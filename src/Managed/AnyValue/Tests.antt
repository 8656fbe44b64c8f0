-- ===== src/Managed/AnyValue/Tests.antt =====
-- Values that are numbers with a type, in a file with one table.
use barq_native.Prelude.{ℕ, ◌≡◌, refl, Bool, true, false, some}
use barq_native.Managed.AnyValue.{
  DataType, typed_link_type, int, string, data_type_of, CoreValue, held, serialize, detach, scalar,
  holds_alternative,
}
use barq_native.Managed.AnyValue.Alternatives.{IsValue, detach-serialize}

data Number : Type 0 where
  nothing : Number
  number : DataType → ℕ → ℕ → Number

abbrev is_nothing : Number → Bool
is_nothing nothing = true
is_nothing _ = false

abbrev type_of : Number → DataType
type_of nothing = typed_link_type
type_of (number t table n) = t

abbrev number_of : Number → ℕ × ℕ
number_of nothing = (0, 0)
number_of (number t table n) = (table, n)

abbrev numbers : CoreValue
numbers = record {
  Value = Number;
  Carrier = λ k. ℕ;
  null = nothing;
  make = λ k x. number (data_type_of k) 0 x;
  make_link = λ table key. number typed_link_type table key;
  is_null = is_nothing;
  type = type_of;
  get = λ k v. (number_of v).1;
  get_link = number_of;
  table_for_object_type = λ name. 4;
  schema_table_key = λ l. l.0;
}

numbers-IsValue : IsValue numbers
numbers-IsValue = record {
  is_null-null = refl;
  is_null-make = λ k x. refl;
  type-make = λ k x. refl;
  get-make = λ k x. refl;
  is_null-make_link = λ table key. refl;
  type-make_link = λ table key. refl;
  get_link-make_link = λ table key. refl;
  schema_of_table = λ table key. refl;
}

detach-serialize_example :
    (detach numbers (serialize numbers (held int 7)) ≡ some (held int 7))
    × (holds_alternative numbers (scalar string) (serialize numbers (held int 7)) ≡ false)
detach-serialize_example = detach-serialize numbers numbers-IsValue (held int 7) (scalar string)
