-- ===== src/Managed/Floating.antt =====
-- include/barq_native/managed_numeric.hpp: managed<double>, managed<float> and managed<bool>. The
-- arithmetic of C++ floating point is a parameter.
pub mod Laws
mod Tests
use barq_native.Prelude.{Bool, true, false, not, ◌&&◌, ◌||◌, Option, none, some}
use barq_native.Prelude.Int.{ℤ, pos}
use barq_native.Query.{QueryEngine, double, float, boolean, Op, equal, not_equal, ColKey}
use barq_native.Query.Rbool.{Rbool, compare}
use barq_native.Managed.{Column, Compared, in_query, in_object}
use barq_native.Managed.Numeric.{Equality, is, is_not, op_of}

-- The types double and float with their conversions, comparisons and arithmetic.
pub record FloatingPoint : Type 1 where
  pub Double : Type 0
  pub Float : Type 0
  pub double_of : ℤ → Double
  pub float_of : ℤ → Float
  pub widen : Float → Double
  pub narrow : Double → Float
  pub test_double : Op → Double → Double → Bool
  pub test_float : Op → Float → Float → Bool
  pub add_double : Double → Double → Double
  pub subtract_double : Double → Double → Double
  pub multiply_double : Double → Double → Double
  pub add_float : Float → Float → Float
  pub subtract_float : Float → Float → Float
  pub multiply_float : Float → Float → Float

module _ (F : FloatingPoint) where
  open F use {
    Double, Float, double_of, float_of, widen, narrow, test_double, test_float, add_double,
    subtract_double, multiply_double, add_float, subtract_float, multiply_float,
  }

  -- What a field is compared with: any integral or floating type T.
  pub data Operand : Type 0 where
    integer : ℤ → Operand
    of_float : Float → Operand
    of_double : Double → Operand

  -- (double)rhs and (float)rhs
  unfoldable pub to_double : Operand → Double
  to_double (integer z) = double_of z
  to_double (of_float x) = widen x
  to_double (of_double x) = x

  unfoldable pub to_float : Operand → Float
  to_float (integer z) = float_of z
  to_float (of_float x) = x
  to_float (of_double x) = narrow x

  -- The built-in comparison of a double with an operand, which is converted to double.
  unfoldable pub test_with_double : Op → Double → Operand → Bool
  unfolding to_double
  test_with_double o v rhs = test_double o v (to_double rhs)

  -- That of a float, where an operand of type double has the float converted.
  unfoldable pub test_with_float : Op → Float → Operand → Bool
  test_with_float o v (integer z) = test_float o v (float_of z)
  test_with_float o v (of_float x) = test_float o v x
  test_with_float o v (of_double x) = test_double o (widen v) x

  module _ (C : Column Double) where
    open C use {Obj, get, set}

    unfoldable pub double_assign : ColKey → Double → Obj → Obj
    double_assign key v obj = set obj key v

    unfoldable pub double_assign_int : ColKey → ℤ → Obj → Obj
    double_assign_int key v obj = set obj key (double_of v)

    unfoldable pub double_add_assign : ColKey → Double → Obj → Obj
    double_add_assign key o obj = set obj key (add_double (get obj key) o)

    unfoldable pub double_increment : ColKey → Obj → Obj
    double_increment key obj = set obj key (add_double (get obj key) (double_of (pos 1)))

    unfoldable pub double_subtract_assign : ColKey → Double → Obj → Obj
    double_subtract_assign key o obj = set obj key (subtract_double (get obj key) o)

    unfoldable pub double_decrement : ColKey → Obj → Obj
    double_decrement key obj = set obj key (subtract_double (get obj key) (double_of (pos 1)))

    unfoldable pub double_multiply_assign : ColKey → Double → Obj → Obj
    double_multiply_assign key o obj = set obj key (multiply_double (get obj key) o)

  module _ (C : Column Float) where
    open C use {Obj, get, set}

    unfoldable pub float_assign : ColKey → Float → Obj → Obj
    float_assign key v obj = set obj key v

    unfoldable pub float_assign_int : ColKey → ℤ → Obj → Obj
    float_assign_int key v obj = set obj key (float_of v)

    unfoldable pub float_add_assign : ColKey → Float → Obj → Obj
    float_add_assign key o obj = set obj key (add_float (get obj key) o)

    unfoldable pub float_increment : ColKey → Obj → Obj
    float_increment key obj = set obj key (add_float (get obj key) (float_of (pos 1)))

    unfoldable pub float_subtract_assign : ColKey → Float → Obj → Obj
    float_subtract_assign key o obj = set obj key (subtract_float (get obj key) o)

    unfoldable pub float_decrement : ColKey → Obj → Obj
    float_decrement key obj = set obj key (subtract_float (get obj key) (float_of (pos 1)))

    unfoldable pub float_multiply_assign : ColKey → Float → Obj → Obj
    float_multiply_assign key o obj = set obj key (multiply_float (get obj key) o)

  module _ (E : QueryEngine) where
    unfoldable pub double_compare :
        (C : Column Double)
        → (Double → E.Value double)
        → Op
        → ColKey
        → Option (Rbool E)
        → C.Obj
        → Operand
        → Compared E
    unfolding to_double test_with_double
    double_compare C double_value o key m_rbool_query obj rhs = elim m_rbool_query [
      | some r ↦ in_query E (compare E double o key (some (double_value (to_double rhs))) r)
      | none ↦ in_object E (test_with_double o (C.get obj key) rhs)
    ]

    unfoldable pub float_compare :
        (C : Column Float)
        → (Float → E.Value float)
        → Op
        → ColKey
        → Option (Rbool E)
        → C.Obj
        → Operand
        → Compared E
    unfolding to_float test_with_float
    float_compare C float_value o key m_rbool_query obj rhs = elim m_rbool_query [
      | some r ↦ in_query E (compare E float o key (some (float_value (to_float rhs))) r)
      | none ↦ in_object E (test_with_float o (C.get obj key) rhs)
    ]

-- operator== and operator!= of bool
unfoldable pub test_bool : Equality → Bool → Bool → Bool
test_bool is a b = (a && b) || (not a && not b)
test_bool is_not a b = not ((a && b) || (not a && not b))

-- managed<bool>, by the macro __barq_native_build_query
unfoldable pub bool_compare :
    (E : QueryEngine) (C : Column Bool)
    → (Bool → E.Value boolean)
    → Equality
    → ColKey
    → Option (Rbool E)
    → C.Obj
    → Bool
    → Compared E
unfolding test_bool
bool_compare E C bool_value o key m_rbool_query obj rhs = elim m_rbool_query [
  | some r ↦ in_query E (compare E boolean (op_of o) key (some (bool_value rhs)) r)
  | none ↦ in_object E (test_bool o (C.get obj key) rhs)
]
