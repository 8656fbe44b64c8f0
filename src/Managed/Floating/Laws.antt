-- ===== src/Managed/Floating/Laws.antt =====
-- What the fields of floating type compute and compare.
use barq_native.Prelude.{◌≡◌, refl, ap, ◌∙◌, none, some, List, [], ◌∷◌}
use barq_native.Prelude.Int.{pos}
use barq_native.Query.{QueryEngine, IsLawful, double, float, Op, ColKey}
use barq_native.Query.Rbool.{of_bool}
use barq_native.Managed.{Column, IsColumn, start, query_answer, object_answer}
use barq_native.Managed.Answers.{query_answer-compare}
use barq_native.Managed.Floating.{
  FloatingPoint, Operand, of_float, to_double, to_float, double_add_assign, double_increment,
  double_subtract_assign, double_decrement, double_multiply_assign, float_add_assign,
  float_increment, float_subtract_assign, float_decrement, float_multiply_assign, double_compare,
  float_compare,
}

-- An operator that changes a field of type A.
pub data Change (A : Type 0) : Type 0 where
  add : A → Change A
  subtract : A → Change A
  multiply : A → Change A
  incremented decremented : Change A

module _ (F : FloatingPoint) where
  open F use {Double, Float, double_of, float_of, test_double, test_float}

  abbrev pub double_value_after : List (Change Double) → Double → Double
  double_value_after [] v = v
  double_value_after (add x ∷ cs) v = double_value_after cs (F.add_double v x)
  double_value_after (subtract x ∷ cs) v = double_value_after cs (F.subtract_double v x)
  double_value_after (multiply x ∷ cs) v = double_value_after cs (F.multiply_double v x)
  double_value_after (incremented ∷ cs) v =
      double_value_after cs (F.add_double v (double_of (pos 1)))
  double_value_after (decremented ∷ cs) v =
      double_value_after cs (F.subtract_double v (double_of (pos 1)))

  abbrev pub float_value_after : List (Change Float) → Float → Float
  float_value_after [] v = v
  float_value_after (add x ∷ cs) v = float_value_after cs (F.add_float v x)
  float_value_after (subtract x ∷ cs) v = float_value_after cs (F.subtract_float v x)
  float_value_after (multiply x ∷ cs) v = float_value_after cs (F.multiply_float v x)
  float_value_after (incremented ∷ cs) v = float_value_after cs (F.add_float v (float_of (pos 1)))
  float_value_after (decremented ∷ cs) v =
      float_value_after cs (F.subtract_float v (float_of (pos 1)))

  abbrev pub run_double : (C : Column Double) → ColKey → List (Change Double) → C.Obj → C.Obj
  run_double C k [] o = o
  run_double C k (add x ∷ cs) o = run_double C k cs (double_add_assign F C k x o)
  run_double C k (subtract x ∷ cs) o = run_double C k cs (double_subtract_assign F C k x o)
  run_double C k (multiply x ∷ cs) o = run_double C k cs (double_multiply_assign F C k x o)
  run_double C k (incremented ∷ cs) o = run_double C k cs (double_increment F C k o)
  run_double C k (decremented ∷ cs) o = run_double C k cs (double_decrement F C k o)

  abbrev pub run_float : (C : Column Float) → ColKey → List (Change Float) → C.Obj → C.Obj
  run_float C k [] o = o
  run_float C k (add x ∷ cs) o = run_float C k cs (float_add_assign F C k x o)
  run_float C k (subtract x ∷ cs) o = run_float C k cs (float_subtract_assign F C k x o)
  run_float C k (multiply x ∷ cs) o = run_float C k cs (float_multiply_assign F C k x o)
  run_float C k (incremented ∷ cs) o = run_float C k cs (float_increment F C k o)
  run_float C k (decremented ∷ cs) o = run_float C k cs (float_decrement F C k o)

  module _ (C : Column Double) (L : IsColumn C) where
    run_double-value :
        (k : ColKey) (cs : List (Change Double)) (o : C.Obj)
        → C.get (run_double C k cs o) k ≡ double_value_after cs (C.get o k)
    unfolding double_add_assign double_increment double_subtract_assign double_decrement
        double_multiply_assign
    run_double-value k [] o = refl
    run_double-value k (add x ∷ cs) o =
        run_double-value k cs _ ∙ ap (double_value_after cs) (L.get-set o k _)
    run_double-value k (subtract x ∷ cs) o =
        run_double-value k cs _ ∙ ap (double_value_after cs) (L.get-set o k _)
    run_double-value k (multiply x ∷ cs) o =
        run_double-value k cs _ ∙ ap (double_value_after cs) (L.get-set o k _)
    run_double-value k (incremented ∷ cs) o =
        run_double-value k cs _ ∙ ap (double_value_after cs) (L.get-set o k _)
    run_double-value k (decremented ∷ cs) o =
        run_double-value k cs _ ∙ ap (double_value_after cs) (L.get-set o k _)

  module _ (C : Column Float) (L : IsColumn C) where
    run_float-value :
        (k : ColKey) (cs : List (Change Float)) (o : C.Obj)
        → C.get (run_float C k cs o) k ≡ float_value_after cs (C.get o k)
    unfolding float_add_assign float_increment float_subtract_assign float_decrement
        float_multiply_assign
    run_float-value k [] o = refl
    run_float-value k (add x ∷ cs) o =
        run_float-value k cs _ ∙ ap (float_value_after cs) (L.get-set o k _)
    run_float-value k (subtract x ∷ cs) o =
        run_float-value k cs _ ∙ ap (float_value_after cs) (L.get-set o k _)
    run_float-value k (multiply x ∷ cs) o =
        run_float-value k cs _ ∙ ap (float_value_after cs) (L.get-set o k _)
    run_float-value k (incremented ∷ cs) o =
        run_float-value k cs _ ∙ ap (float_value_after cs) (L.get-set o k _)
    run_float-value k (decremented ∷ cs) o =
        run_float-value k cs _ ∙ ap (float_value_after cs) (L.get-set o k _)

  -- Any sequence of operators on a double field, or on a float field, leaves it with the value
  -- that the same sequence of operations of its type computes, when core reads a write back.
  pub run_floating :
      (D : Column Double) (G : Column Float)
      → IsColumn D
      → IsColumn G
      → (k : ColKey) (cs : List (Change Double)) (ds : List (Change Float)) (o : D.Obj) (p : G.Obj)
      → (D.get (run_double D k cs o) k ≡ double_value_after cs (D.get o k))
        × (G.get (run_float G k ds p) k ≡ float_value_after ds (G.get p k))
  run_floating D G LD LG k cs ds o p = (run_double-value D LD k cs o, run_float-value G LG k ds p)

  module _ (E : QueryEngine) (L : IsLawful E) (D : Column Double) (G : Column Float)
      (double_value : Double → E.Value double) (float_value : Float → E.Value float)
      (double_object : E.Row → D.Obj) (float_object : E.Row → G.Obj) where
    -- Core compares a column of floating type as the language does.
    pub record IsFloatingColumn : Type 0 where
      pub column_holds-double :
          (o : Op) (k : ColKey) (x : Double) (row : E.Row)
          → E.column_holds double o k (some (double_value x)) row
            ≡ test_double o (D.get (double_object row) k) x
      pub column_holds-float :
          (o : Op) (k : ColKey) (x : Float) (row : E.Row)
          → E.column_holds float o k (some (float_value x)) row
            ≡ test_float o (G.get (float_object row) k) x

    -- For every lawful engine whose columns of floating type compare as the language does, a
    -- comparison of a double field with an operand of any type says of each row in a query what
    -- it says of that row's object, and a comparison of a float field says in a query what it
    -- says of the object with the operand converted to float.
    floating_compare-query :
        IsFloatingColumn
        → (t : E.Table) (o : Op) (k : ColKey) (rhs : Operand F) (row : E.Row)
        → (query_answer E
              (double_compare F E D double_value o k (start E t) (double_object row) rhs)
              row
            ≡ object_answer E (double_compare F E D double_value o k none (double_object row) rhs))
          × (query_answer E
                (float_compare F E G float_value o k (start E t) (float_object row) rhs)
                row
              ≡ object_answer E (
                  float_compare F E G float_value o k none
                    (float_object row)
                    (of_float (to_float F rhs))))
    unfolding double_compare float_compare of_bool
    floating_compare-query I t o k rhs row = (
      query_answer-compare E L t double o k (some (double_value (to_double F rhs))) row
          ∙ ap some (I.column_holds-double o k (to_double F rhs) row),
      query_answer-compare E L t float o k (some (float_value (to_float F rhs))) row
          ∙ ap some (I.column_holds-float o k (to_float F rhs) row),
    )
