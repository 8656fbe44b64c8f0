-- ===== src/Managed/Values/Agreement.antt =====
-- A comparison that the macros build says in a query what it says on an object.
use barq_native.Prelude.{◌≡◌, refl, sym, ap, ◌∙◌, Bool, true, false, Option, none, some}
use mathlib.Core.Option
use barq_native.Query.{QueryEngine, IsLawful, Op, equal, not_equal, less, ColKey}
use barq_native.Query.Rbool.{of_bool}
use barq_native.Managed.{Column, start, query_answer, object_answer}
use barq_native.Managed.Answers.{query_answer-compare}
use barq_native.Managed.Values.{
  ValueType, detach, detach_optional, build_query, build_pk_query, build_optional_query,
  build_optional_pk_query, build_optional_pk_order, test_optional,
}

abbrev pub is_equality : Op → Bool
is_equality equal = true
is_equality not_equal = true
is_equality _ = false

module _ (E : QueryEngine) (L : IsLawful E) (A : ValueType) (C : Column A.Internal)
    (value : A.Internal → E.Value A.kind) (object : E.Row → C.Obj) where
  open C use {Obj, get, get_optional}

  -- A value is read back as it was stored, core compares a column as the built-in comparisons do,
  -- and null equals null only and is neither more nor less than a value.
  pub record IsValueColumn : Type 0 where
    pub serialize-deserialize : (x : A.Internal) → A.serialize (A.deserialize x) ≡ x
    pub column_holds-value :
        (o : Op) (k : ColKey) (x : A.Internal) (row : E.Row)
        → E.column_holds A.kind o k (some (value x)) row ≡ A.test o (get (object row) k) x
    pub column_holds-optional :
        (o : Op) (k : ColKey) (x : Option A.Internal) (row : E.Row)
        → is_equality o ≡ true
        → E.column_holds A.kind o k (Option.map value x) row
          ≡ test_optional A o (get_optional (object row) k) x
    pub column_holds-null :
        (o : Op) (k : ColKey) (x : A.Internal) (row : E.Row)
        → get_optional (object row) k ≡ none
        → is_equality o ≡ false
        → E.column_holds A.kind o k (some (value x)) row ≡ false

  module _ (I : IsValueColumn) where
    stored : (x : Option A.Internal) → Option.map A.serialize (Option.map A.deserialize x) ≡ x
    stored none = refl
    stored (some x) = ap some (I.serialize-deserialize x)

    given :
        (v : Option A.T)
        → Option.map (λ u. value (A.serialize u)) v ≡ Option.map value (Option.map A.serialize v)
    given none = refl
    given (some v) = refl

    -- For every lawful engine and every type of values whose columns compare as the values do, a
    -- comparison of a field and one of a primary key, and == and != of an optional field and of
    -- an optional primary key, say of each row in a query what they say of that row's object.
    build_query-agrees :
        (t : E.Table) (k : ColKey) (row : E.Row) (o : Op) (v : A.T) (e : Op) (w : Option A.T)
        → is_equality e ≡ true
        → (query_answer E (build_query E A C value o k (start E t) (object row) v) row
            ≡ object_answer E (build_query E A C value o k none (object row) v))
          × (query_answer E (build_pk_query E A C value o k (start E t) (object row) v) row
              ≡ object_answer E (build_pk_query E A C value o k none (object row) v))
          × (query_answer E (build_optional_query E A C value e k (start E t) (object row) w) row
              ≡ object_answer E (build_optional_query E A C value e k none (object row) w))
          × (query_answer E (build_optional_pk_query E A C value e k (start E t) (object row) w) row
              ≡ object_answer E (build_optional_pk_query E A C value e k none (object row) w))
    unfolding build_query build_pk_query build_optional_query build_optional_pk_query of_bool detach
        detach_optional
    build_query-agrees t k row o v e w is =
        let plain =
          query_answer-compare E L t A.kind o k (some (value (A.serialize v))) row
          ∙ ap some (
              I.column_holds-value o k (A.serialize v) row
              ∙ ap (λ x. A.test o x (A.serialize v)) (sym (I.serialize-deserialize _))) in
        let optional =
          query_answer-compare E L t A.kind e k (Option.map (λ u. value (A.serialize u)) w) row
          ∙ ap (λ x. some (E.column_holds A.kind e k x row)) (given w)
          ∙ ap some (
              I.column_holds-optional e k (Option.map A.serialize w) row is
              ∙ ap (λ x. test_optional A e x (Option.map A.serialize w)) (sym (stored _))) in
        (plain, plain, optional, optional)

    -- For every lawful engine and every type of values whose columns compare as the values do, a
    -- primary key that is null is less than every number on the object, and for no number in a query.
    pub build_optional_pk_order-null :
        (t : E.Table) (k : ColKey) (row : E.Row) (v : A.T)
        → get_optional (object row) k ≡ none
        → (object_answer E (build_optional_pk_order E A C value less k none (object row) v)
            ≡ some true)
          × (query_answer E
                (build_optional_pk_order E A C value less k (start E t) (object row) v)
                row
              ≡ some false)
    unfolding build_optional_pk_order of_bool detach_optional
    build_optional_pk_order-null t k row v null = (
      rw (null) refl,
      query_answer-compare E L t A.kind less k (some (value (A.serialize v))) row
          ∙ ap some (I.column_holds-null less k (A.serialize v) row null refl),
    )
