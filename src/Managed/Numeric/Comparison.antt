-- ===== src/Managed/Numeric/Comparison.antt =====
-- A comparison of a managed integer or enum, in a query and on an object.
use mathlib.Core.Option
use barq_native.Prelude.{
  ℕ, ◌≤◌, ◌<◌, ◌≡◌, refl, ap, sym, ◌∙◌, true, false, lt→ltb, ◌+◌, ◌-◌, Option, none, some, arith,
}
use barq_native.Prelude.Int.{ℤ, pos, negsuc}
use barq_native.Query.{QueryEngine, IsLawful, int, Op, greater, less, ColKey, test_ℤ}
use barq_native.Query.Rbool.{of_bool, of_query, compare}
use barq_native.Managed.{Column, in_query, start, query_answer, object_answer}
use barq_native.Managed.Answers.{query_answer-compare}
use barq_native.Managed.Numeric.{
  signed, unsigned, to_int64, int64_compare, Equality, test_optional, op_of, optional_compare,
  EnumType, enum_compare,
}

to_int64-big :
    (n : ℕ)
    → 9223372036854775808 ≤ n
    → n < 18446744073709551616
    → to_int64 (unsigned n) ≡ negsuc (18446744073709551616 - n - 1)
unfolding to_int64
to_int64-big n big bounded = ground arith

-- The operator that a query is asked for by an operator of an enum field.
abbrev pub asked : Op → Op
asked less = greater
asked o = o

module _ (E : QueryEngine) (L : IsLawful E) (C : Column ℤ) (int_value : ℤ → E.Value int)
    (object : E.Row → C.Obj) where
  open C use {Obj, get, get_optional}

  -- Core compares an integer column as the integers, and null with null only.
  pub record IsIntColumn : Type 0 where
    pub column_holds-int :
        (o : Op) (k : ColKey) (z : ℤ) (row : E.Row)
        → E.column_holds int o k (some (int_value z)) row ≡ test_ℤ o (get (object row) k) z
    pub column_holds-optional :
        (o : Equality) (k : ColKey) (z : Option ℤ) (row : E.Row)
        → E.column_holds int (op_of o) k (Option.map int_value z) row
          ≡ test_optional o (get_optional (object row) k) z

  module _ (I : IsIntColumn) where
    -- For every lawful engine whose integer columns compare as the integers, a comparison with an
    -- integer of any type whose values int64_t has says of each row in a query what it says of
    -- that row's object.
    pub int64_compare-agrees :
        (t : E.Table) (o : Op) (k : ColKey) (z : ℤ) (row : E.Row)
        → query_answer E (int64_compare E C int_value o k (start E t) (object row) (signed z)) row
          ≡ object_answer E (int64_compare E C int_value o k none (object row) (signed z))
    unfolding int64_compare of_bool
    int64_compare-agrees t o k z row =
        query_answer-compare E L t int o k (some (int_value z)) row
        ∙ ap some (I.column_holds-int o k z row)

    -- For every lawful engine whose integer columns compare as the integers, with a uint64_t of
    -- 2^63 or more, a field that is not negative is less than it on the object, and in a query is
    -- not.
    int64_compare-unsigned :
        (t : E.Table) (k : ColKey) (n m : ℕ) (row : E.Row)
        → get (object row) k ≡ pos m
        → m < 9223372036854775808
        → 9223372036854775808 ≤ n
        → n < 18446744073709551616
        → (object_answer E (int64_compare E C int_value less k none (object row) (unsigned n))
            ≡ some true)
          × (query_answer E
                (int64_compare E C int_value less k (start E t) (object row) (unsigned n))
                row
              ≡ some false)
    unfolding int64_compare of_bool
    int64_compare-unsigned t k n m row e small big bounded = (
      rw (e, lt→ltb (m + 0) (n + 0) (omega arith)) refl,
      query_answer-compare E L t int less k (some (int_value (to_int64 (unsigned n)))) row
          ∙ ap some (
              I.column_holds-int less k (to_int64 (unsigned n)) row
              ∙ rw (e, to_int64-big n big bounded) (ground arith)),
    )

    -- For every lawful engine whose integer columns compare as the integers and null with null
    -- only, an optional field is compared with an optional in a query as on the object, null
    -- included.
    optional_compare-agrees :
        (t : E.Table) (o : Equality) (k : ColKey) (z : Option ℤ) (row : E.Row)
        → query_answer E (optional_compare E C int_value o k (start E t) (object row) z) row
          ≡ object_answer E (optional_compare E C int_value o k none (object row) z)
    unfolding optional_compare of_bool
    optional_compare-agrees t o k z row =
        query_answer-compare E L t int (op_of o) k (Option.map int_value z) row
        ∙ ap some (I.column_holds-optional o k z row)

    -- For every lawful engine whose integer columns compare as the integers, in a query,
    -- operator< of an enum field has the rows whose value is greater; the other five operators
    -- say what they say on the object, provided that the enum type has the stored value.
    enum_compare-query :
        (e : EnumType) (t : E.Table) (o : Op) (k : ColKey) (v : e.T) (row : E.Row)
        → e.value_of (e.from_value (get (object row) k)) ≡ get (object row) k
        → query_answer E (enum_compare E C int_value e o k (start E t) (object row) v) row
          ≡ object_answer E (enum_compare E C int_value e (asked o) k none (object row) v)
    unfolding enum_compare of_bool
    enum_compare-query e t o k v row h = by_value (asked o)
      where
        by_value :
            (p : Op)
            → query_answer E
                (in_query E
                  (compare E int p k (some (int_value (e.value_of v))) (of_query E (E.all t))))
                row
              ≡ some (test_ℤ p (e.value_of (e.from_value (get (object row) k))) (e.value_of v))
        by_value p =
            query_answer-compare E L t int p k (some (int_value (e.value_of v))) row
            ∙ ap some (
                I.column_holds-int p k (e.value_of v) row
                ∙ ap (λ x. test_ℤ p x (e.value_of v)) (sym h))
