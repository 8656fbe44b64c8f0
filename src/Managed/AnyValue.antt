-- ===== src/Managed/AnyValue.antt =====
-- include/barq_native/managed_mixed.hpp and the conversions of mixed values of types.hpp: a field
-- that holds a value of any type. A value of core is a parameter; `none` is an exception.
pub mod Alternatives
pub mod StoredLinks
mod Tests
use barq_native.Prelude.{ℕ, Bool, true, false, ◌==◌, Option, none, some, if◌then◌else◌}
use barq_native.Prelude.Bytes.{Bytes}

-- internal::bridge::data_type
pub data DataType : Type 0 where
  int_type bool_type string_type binary_type mixed_type timestamp_type float_type double_type :
      DataType
  decimal_type link_type link_list_type object_id_type typed_link_type uuid_type : DataType

-- managed::stored_type: the types of core, whose numbers it has, and Null.
pub data StoredType : Type 0 where
  of_type : DataType → StoredType
  null_type : StoredType

-- The types of values that a std::variant in a struct has next to std::monostate.
pub data Scalar : Type 0 where
  int bool string binary timestamp double uuid object_id decimal : Scalar

abbrev pub data_type_of : Scalar → DataType
data_type_of int = int_type
data_type_of bool = bool_type
data_type_of string = string_type
data_type_of binary = binary_type
data_type_of timestamp = timestamp_type
data_type_of double = double_type
data_type_of uuid = uuid_type
data_type_of object_id = object_id_type
data_type_of decimal = decimal_type

-- bridge::mixed, with its constructor and its conversion for each type of values, and the tables of
-- the file.
pub record CoreValue : Type 1 where
  pub Value : Type 0
  pub Carrier : Scalar → Type 0
  pub null : Value
  pub make : (k : Scalar) → Carrier k → Value
  pub make_link : ℕ → ℕ → Value
  pub is_null : Value → Bool
  pub type : Value → DataType
  pub get : (k : Scalar) → Value → Carrier k
  -- the keys of the table and of the object that a link leads to
  pub get_link : Value → ℕ × ℕ
  pub table_for_object_type : Bytes → ℕ
  -- get_object_schema().table_key() of the object that a link leads to
  pub schema_table_key : ℕ × ℕ → ℕ

module _ (C : CoreValue) where
  open C use {Value, Carrier, is_null, type, get, get_link, table_for_object_type}

  -- The std::variant of the struct
  pub data Variant : Type 0 where
    monostate : Variant
    held : (k : Scalar) → Carrier k → Variant

  -- serialize, and the value that operator= writes
  unfoldable pub serialize : Variant → Value
  serialize monostate = C.null
  serialize (held k x) = C.make k x

  -- The switch of deserialize
  abbrev pub deserialize_type : DataType → Value → Option Variant
  deserialize_type int_type v = some (held int (get int v))
  deserialize_type bool_type v = some (held bool (get bool v))
  deserialize_type string_type v = some (held string (get string v))
  deserialize_type binary_type v = some (held binary (get binary v))
  deserialize_type timestamp_type v = some (held timestamp (get timestamp v))
  deserialize_type float_type v = some (held double (get double v))
  deserialize_type double_type v = some (held double (get double v))
  deserialize_type uuid_type v = some (held uuid (get uuid v))
  deserialize_type object_id_type v = some (held object_id (get object_id v))
  deserialize_type decimal_type v = some (held decimal (get decimal v))
  deserialize_type typed_link_type v = none
  deserialize_type mixed_type v = none
  deserialize_type link_type v = none
  deserialize_type link_list_type v = none

  unfoldable pub deserialize : Value → Option Variant
  deserialize v = if is_null v then some monostate else deserialize_type (type v) v

  -- detach, of the value of the field
  unfoldable pub detach : Value → Option Variant
  unfolding deserialize
  detach v = deserialize v

  unfoldable pub get_stored_type : Value → StoredType
  get_stored_type v = if is_null v then null_type else of_type (type v)

  unfoldable pub has_link : Value → Bool
  unfolding get_stored_type
  has_link v = elim (get_stored_type v) [
    | null_type ↦ false
    | of_type t ↦ elim t [ typed_link_type ↦ true | _ ↦ false ]
  ]

  -- set_link of a managed object, of whose table and own key it writes a link.
  unfoldable pub set_link : ℕ → ℕ → Value
  set_link table key = C.make_link table key

  -- get_stored_link<U>, by the name of the schema of U: the key of the object.
  unfoldable pub get_stored_link : Bytes → Value → Option ℕ
  get_stored_link name v =
      let alternative_key = table_for_object_type name in
      let (stored_table, key) = get_link v in
      if alternative_key == stored_table then some key else none

  -- The types that holds_alternative is asked for: a scalar, float, std::monostate, the variant
  -- itself, or a pointer to the struct of a schema.
  pub data Asked : Type 0 where
    scalar : Scalar → Asked
    float : Asked
    no_value : Asked
    variant : Asked
    pointer : Bytes → Asked

  -- std::is_same_v of two types of values
  abbrev pub same_scalar : Scalar → Scalar → Bool
  same_scalar int int = true
  same_scalar bool bool = true
  same_scalar string string = true
  same_scalar binary binary = true
  same_scalar timestamp timestamp = true
  same_scalar double double = true
  same_scalar uuid uuid = true
  same_scalar object_id object_id = true
  same_scalar decimal decimal = true
  same_scalar _ _ = false

  abbrev pub is_same : Scalar → Asked → Bool
  is_same k (scalar j) = same_scalar k j
  is_same k _ = false

  -- The case of a typed link
  unfoldable pub holds_link : Asked → Value → Bool
  holds_link (pointer name) v = table_for_object_type name == C.schema_table_key (get_link v)
  holds_link _ v = false

  abbrev pub holds_type : DataType → Asked → Value → Bool
  holds_type int_type asked v = is_same int asked
  holds_type bool_type asked v = is_same bool asked
  holds_type string_type asked v = is_same string asked
  holds_type binary_type asked v = is_same binary asked
  holds_type mixed_type asked v = elim asked [ variant ↦ true | _ ↦ false ]
  holds_type timestamp_type asked v = is_same timestamp asked
  holds_type float_type asked v = elim asked [ float ↦ true | _ ↦ false ]
  holds_type double_type asked v = is_same double asked
  holds_type decimal_type asked v = is_same decimal asked
  holds_type object_id_type asked v = is_same object_id asked
  holds_type uuid_type asked v = is_same uuid asked
  holds_type typed_link_type asked v = holds_link asked v
  holds_type link_type asked v = false
  holds_type link_list_type asked v = false

  unfoldable pub holds_alternative : Asked → Value → Bool
  unfolding get_stored_type
  holds_alternative asked v = elim (get_stored_type v) [
    | null_type ↦ elim asked [ no_value ↦ true | _ ↦ false ]
    | of_type t ↦ holds_type t asked v
  ]
