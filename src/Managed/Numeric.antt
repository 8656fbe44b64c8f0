-- ===== src/Managed/Numeric.antt =====
-- include/barq_native/managed_numeric.hpp: managed<int64_t>, managed<std::optional<int64_t>>, and
-- managed enums. `undefined` and `none` stand for undefined behaviour, such as signed overflow.
pub mod Arithmetic
pub mod Comparison
mod Tests
use barq_native.Prelude.{
  ℕ, zero, suc, ◌+◌, ◌-◌, ◌*◌, ◌/◌, ◌%◌, Bool, true, false, not, ◌&&◌, ◌||◌, ltb, leb, Option, none,
  some, ◌>>=◌, if◌then◌else◌,
}
use barq_native.Prelude.Int.{
  ℤ, pos, negsuc, ◌+ℤ◌, ◌-ℤ◌, ◌*ℤ◌, sub_ℕ, eqb_ℤ, ltb_ℤ, leb_ℤ, pos_part, neg_part,
}
use mathlib.Core.Option
use barq_native.Query.{
  QueryEngine, int, Op, equal, not_equal, greater, less, greater_equal, less_equal, ColKey, test_ℤ,
}
use barq_native.Query.Rbool.{Rbool, compare}
use barq_native.Managed.{Column, Compared, in_query, in_object}

-- The range of int64_t.
abbrev pub in_int64 : ℤ → Bool
in_int64 z = ltb_ℤ z (pos 9223372036854775808) && leb_ℤ (negsuc 9223372036854775807) z

-- A sum, difference or product of int64_t: out of range it is undefined.
abbrev pub checked : ℤ → Option ℤ
checked z = if in_int64 z then some z else none

-- Division of int64_t, which rounds towards zero and is undefined by zero.
unfoldable pub quotient : ℤ → ℤ → Option ℤ
quotient a (pos zero) = none
quotient (pos n) (pos (suc m)) = some (pos (n / suc m))
quotient (pos n) (negsuc m) = some (sub_ℕ 0 (n / suc m))
quotient (negsuc n) (pos (suc m)) = some (sub_ℕ 0 (suc n / suc m))
quotient (negsuc n) (negsuc m) = checked (pos (suc n / suc m))

-- A C++ integer that a field is compared with: of a type whose values int64_t has, or uint64_t.
pub data Integral : Type 0 where
  signed : ℤ → Integral
  unsigned : ℕ → Integral

abbrev two64 : ℕ
two64 = 18446744073709551616

-- (int64_t)rhs
unfoldable pub to_int64 : Integral → ℤ
to_int64 (signed z) = z
to_int64 (unsigned n) = if ltb n 9223372036854775808 then pos n else sub_ℕ n two64

-- The conversion of an int64_t to uint64_t.
unfoldable pub to_uint64 : ℤ → ℕ
to_uint64 (pos n) = n
to_uint64 (negsuc n) = two64 - suc n

-- The built-in comparison of an int64_t with an integer, by the usual arithmetic conversions.
unfoldable pub test_integral : Op → ℤ → Integral → Bool
unfolding to_uint64
test_integral o v (signed z) = test_ℤ o v z
test_integral o v (unsigned n) = test_ℤ o (pos (to_uint64 v)) (pos n)

module _ (C : Column ℤ) where
  open C use {Obj, get, set, get_optional, set_null}

  -- managed<int64_t>
  unfoldable pub add_assign : ColKey → ℤ → Obj → Option Obj
  add_assign key o obj = do v ← checked (get obj key +ℤ o); some (set obj key v)

  unfoldable pub increment : ColKey → Obj → Option Obj
  increment key obj = do v ← checked (get obj key +ℤ pos 1); some (set obj key v)

  unfoldable pub subtract_assign : ColKey → ℤ → Obj → Option Obj
  subtract_assign key o obj = do v ← checked (get obj key -ℤ o); some (set obj key v)

  unfoldable pub decrement : ColKey → Obj → Option Obj
  decrement key obj = do v ← checked (get obj key -ℤ pos 1); some (set obj key v)

  unfoldable pub multiply_assign : ColKey → ℤ → Obj → Option Obj
  multiply_assign key o obj = do v ← checked (get obj key *ℤ o); some (set obj key v)

  -- The outcome of arithmetic on an optional: the object, the std::runtime_error, or undefined.
  pub data Outcome : Type 0 where
    done : Obj → Outcome
    null_value : Outcome
    undefined : Outcome

  abbrev pub store : ColKey → Obj → Option ℤ → Outcome
  store key obj none = undefined
  store key obj (some v) = done (set obj key v)

  -- managed<std::optional<int64_t>>
  unfoldable pub optional_add_assign : ColKey → ℤ → Obj → Outcome
  optional_add_assign key o obj = elim (get_optional obj key) [
    | none ↦ null_value
    | some old_val ↦ store key obj (checked (old_val +ℤ o))
  ]

  unfoldable pub optional_increment : ColKey → Obj → Outcome
  optional_increment key obj = elim (get_optional obj key) [
    | none ↦ null_value
    | some old_val ↦ store key obj (checked (old_val +ℤ pos 1))
  ]

  unfoldable pub optional_subtract_assign : ColKey → ℤ → Obj → Outcome
  optional_subtract_assign key o obj = elim (get_optional obj key) [
    | none ↦ null_value
    | some old_val ↦ store key obj (checked (old_val -ℤ o))
  ]

  unfoldable pub optional_decrement : ColKey → Obj → Outcome
  optional_decrement key obj = elim (get_optional obj key) [
    | none ↦ null_value
    | some old_val ↦ store key obj (checked (old_val -ℤ pos 1))
  ]

  unfoldable pub optional_multiply_assign : ColKey → ℤ → Obj → Outcome
  optional_multiply_assign key o obj = elim (get_optional obj key) [
    | none ↦ null_value
    | some old_val ↦ store key obj (checked (old_val *ℤ o))
  ]

  -- operator*(const type&)
  unfoldable pub optional_multiply : ColKey → ℤ → Obj → Outcome
  optional_multiply key o obj = elim (get_optional obj key) [
    | none ↦ null_value
    | some old_val ↦ store key obj (checked (old_val *ℤ o))
  ]

  -- operator/(const type&)
  unfoldable pub optional_divide : ColKey → ℤ → Obj → Outcome
  unfolding quotient
  optional_divide key o obj = elim (get_optional obj key) [
    | none ↦ null_value
    | some old_val ↦ store key obj (quotient old_val o)
  ]

  -- operator=(const int&): the value goes through a double, which has every int.
  unfoldable pub optional_assign_int : ColKey → ℤ → Obj → Obj
  optional_assign_int key v obj = set obj key v

-- The two comparisons of an optional field.
pub data Equality : Type 0 where
  is is_not : Equality

abbrev pub op_of : Equality → Op
op_of is = equal
op_of is_not = not_equal

-- operator== and operator!= of std::optional
abbrev equal_optional : Option ℤ → Option ℤ → Bool
equal_optional none none = true
equal_optional (some a) (some b) = eqb_ℤ a b
equal_optional _ _ = false

unfoldable pub test_optional : Equality → Option ℤ → Option ℤ → Bool
test_optional is a b = equal_optional a b
test_optional is_not a b = not (equal_optional a b)

-- An enum type T, with the conversions from and to int64_t, by which its values are compared.
pub record EnumType : Type 1 where
  pub T : Type 0
  pub value_of : T → ℤ
  pub from_value : ℤ → T

module _ (E : QueryEngine) (C : Column ℤ) (int_value : ℤ → E.Value int) where
  open C use {Obj, get, get_optional}

  -- The six comparisons of managed<int64_t>: the field is that of an object, or m_rbool_query is set.
  unfoldable pub int64_compare : Op → ColKey → Option (Rbool E) → Obj → Integral → Compared E
  unfolding test_integral to_int64
  int64_compare o key m_rbool_query obj rhs = elim m_rbool_query [
    | some r ↦ in_query E (compare E int o key (some (int_value (to_int64 rhs))) r)
    | none ↦ in_object E (test_integral o (get obj key) rhs)
  ]

  -- managed<std::optional<int64_t>>, by the macro __barq_native_build_optional_query
  unfoldable pub optional_compare :
      Equality → ColKey → Option (Rbool E) → Obj → Option ℤ → Compared E
  unfolding test_optional
  optional_compare o key m_rbool_query obj rhs = elim m_rbool_query [
    | some r ↦ in_query E (compare E int (op_of o) key (Option.map int_value rhs) r)
    | none ↦ in_object E (test_optional o (get_optional obj key) rhs)
  ]

  -- A managed enum: operator< asks the query for what operator> asks it for.
  abbrev enum_query_op : Op → Op
  enum_query_op less = greater
  enum_query_op o = o

  unfoldable pub enum_compare :
      (e : EnumType) → Op → ColKey → Option (Rbool E) → Obj → e.T → Compared E
  enum_compare e o key m_rbool_query obj rhs = elim m_rbool_query [
    | some r ↦
        in_query E (compare E int (enum_query_op o) key (some (int_value (e.value_of rhs))) r)
    | none ↦ in_object E (test_ℤ o (e.value_of (e.from_value (get obj key))) (e.value_of rhs))
  ]

-- The field of an enum, and that of an optional enum.
module _ (C : Column ℤ) (e : EnumType) where
  open C use {Obj, get, set, get_optional, set_null}

  unfoldable pub enum_assign : ColKey → e.T → Obj → Obj
  enum_assign key v obj = set obj key (e.value_of v)

  unfoldable pub enum_detach : ColKey → Obj → e.T
  enum_detach key obj = e.from_value (get obj key)

  unfoldable pub optional_enum_assign : ColKey → Option e.T → Obj → Obj
  optional_enum_assign key none obj = set_null obj key
  optional_enum_assign key (some v) obj = set obj key (e.value_of v)

  unfoldable pub optional_enum_detach : ColKey → Obj → Option e.T
  optional_enum_detach key obj = Option.map e.from_value (get_optional obj key)
