-- ===== src/Managed/AnyValue/Alternatives.antt =====
-- What a field of any type reads as, and what it says that it holds.
use barq_native.Prelude.{
  ℕ, ◌≡◌, refl, sym, ap, ◌∙◌, Bool, true, false, Bool-cases, inl, inr, none, some, if◌then◌else◌,
}
use barq_native.Managed.AnyValue.{
  DataType, int_type, bool_type, string_type, binary_type, mixed_type, timestamp_type, float_type,
  double_type, decimal_type, link_type, link_list_type, object_id_type, typed_link_type, uuid_type,
  typed_link_type, Scalar, int, bool, string, binary, timestamp, double, uuid, object_id, decimal,
  data_type_of, CoreValue, Variant, monostate, held, serialize, deserialize, deserialize_type,
  detach, get_stored_type, Asked, float, no_value, is_same, holds_type, holds_alternative,
}

module _ (C : CoreValue) where
  open C use {Value, Carrier, null, make, make_link, is_null, type, get, get_link}

  -- The documented behaviour: a value has its type and what it was made of, and the object that a
  -- link leads to has the schema of its table.
  pub record IsValue : Type 0 where
    pub is_null-null : is_null null ≡ true
    pub is_null-make : (k : Scalar) (x : Carrier k) → is_null (make k x) ≡ false
    pub type-make : (k : Scalar) (x : Carrier k) → type (make k x) ≡ data_type_of k
    pub get-make : (k : Scalar) (x : Carrier k) → get k (make k x) ≡ x
    pub is_null-make_link : (table key : ℕ) → is_null (make_link table key) ≡ false
    pub type-make_link : (table key : ℕ) → type (make_link table key) ≡ typed_link_type
    pub get_link-make_link : (table key : ℕ) → get_link (make_link table key) ≡ (table, key)
    pub schema_of_table : (table key : ℕ) → C.schema_table_key (table, key) ≡ table

  -- std::holds_alternative of the variant itself
  abbrev pub alternative : Asked C → Variant C → Bool
  alternative asked monostate = elim asked [ no_value ↦ true | _ ↦ false ]
  alternative asked (held k x) = is_same C k asked

  refused : {a : Variant C} → none ≡ some a → ⊥
  refused e = cc

  same :
      (asked : Asked C) (x a : Variant C)
      → some x ≡ some a
      → alternative asked x ≡ alternative asked a
  same asked x a e = cc

  abbrev pub is_float : Value → Bool
  is_float v = if is_null v then false else elim (type v) [ float_type ↦ true | _ ↦ false ]

  abbrev pub asks_float : Asked C → Bool
  asks_float asked = elim asked [ float ↦ true | _ ↦ false ]

  holds_type-read :
      (t : DataType) (v : Value) (a : Variant C) (asked : Asked C)
      → deserialize_type C t v ≡ some a
      → holds_type C t asked v ≡ (
          if elim t [ float_type ↦ true | _ ↦ false ]
          then asks_float asked
          else alternative asked a)
  holds_type-read int_type v a asked e = same asked (held int (get int v)) a e
  holds_type-read bool_type v a asked e = same asked (held bool (get bool v)) a e
  holds_type-read string_type v a asked e = same asked (held string (get string v)) a e
  holds_type-read binary_type v a asked e = same asked (held binary (get binary v)) a e
  holds_type-read timestamp_type v a asked e = same asked (held timestamp (get timestamp v)) a e
  holds_type-read float_type v a asked e = refl
  holds_type-read double_type v a asked e = same asked (held double (get double v)) a e
  holds_type-read uuid_type v a asked e = same asked (held uuid (get uuid v)) a e
  holds_type-read object_id_type v a asked e = same asked (held object_id (get object_id v)) a e
  holds_type-read decimal_type v a asked e = same asked (held decimal (get decimal v)) a e
  holds_type-read typed_link_type v a asked e = absurd (refused e)
  holds_type-read mixed_type v a asked e = absurd (refused e)
  holds_type-read link_type v a asked e = absurd (refused e)
  holds_type-read link_list_type v a asked e = absurd (refused e)

  -- For a value of core that detach reads as a variant, holds_alternative answers for every type
  -- as std::holds_alternative of that variant does, unless the value is a float, for which it is
  -- true only of the type float.
  holds_alternative-detach :
      (v : Value) (asked : Asked C) (a : Variant C)
      → detach C v ≡ some a
      → holds_alternative C asked v ≡ (if is_float v then asks_float asked else alternative asked a)
  unfolding detach deserialize holds_alternative get_stored_type
  holds_alternative-detach v asked a e = elim (Bool-cases (is_null v)) [
    | inl n ↦
        rw (holds_alternative, get_stored_type, n)
          (same asked monostate a (sym (rw (detach, deserialize, n) refl) ∙ e))
    | inr n ↦
        rw (holds_alternative, get_stored_type, n)
          (holds_type-read (type v) v a asked (sym (rw (detach, deserialize, n) refl) ∙ e))
  ]

  module _ (L : IsValue) where
    deserialize_type-get :
        (k : Scalar) (v : Value) → deserialize_type C (data_type_of k) v ≡ some (held k (get k v))
    deserialize_type-get int v = refl
    deserialize_type-get bool v = refl
    deserialize_type-get string v = refl
    deserialize_type-get binary v = refl
    deserialize_type-get timestamp v = refl
    deserialize_type-get double v = refl
    deserialize_type-get uuid v = refl
    deserialize_type-get object_id v = refl
    deserialize_type-get decimal v = refl

    detach-written : (v : Variant C) → detach C (serialize C v) ≡ some v
    unfolding detach deserialize serialize
    detach-written monostate = rw (L.is_null-null) refl
    detach-written (held k x) =
        rw (L.is_null-make k x, L.type-make k x)
          (deserialize_type-get k (make k x) ∙ ap (λ y. some (held k y)) (L.get-make k x))

    scalar_not_float :
        (k : Scalar) → elim (data_type_of k) [ float_type ↦ true | _ ↦ false ] ≡ false
    scalar_not_float int = refl
    scalar_not_float bool = refl
    scalar_not_float string = refl
    scalar_not_float binary = refl
    scalar_not_float timestamp = refl
    scalar_not_float double = refl
    scalar_not_float uuid = refl
    scalar_not_float object_id = refl
    scalar_not_float decimal = refl

    written_not_float : (v : Variant C) → is_float (serialize C v) ≡ false
    unfolding serialize
    written_not_float monostate = rw (L.is_null-null) refl
    written_not_float (held k x) = rw (L.is_null-make k x, L.type-make k x) (scalar_not_float k)

    -- Over values of core that meet their laws, what serialize makes of a variant is read by
    -- detach as that variant, and holds_alternative answers for every type as
    -- std::holds_alternative does of the variant.
    pub detach-serialize :
        (v : Variant C) (asked : Asked C)
        → (detach C (serialize C v) ≡ some v)
          × (holds_alternative C asked (serialize C v) ≡ alternative asked v)
    detach-serialize v asked = (
      detach-written v,
      holds_alternative-detach (serialize C v) asked v (detach-written v)
          ∙ rw (written_not_float v) refl,
    )
