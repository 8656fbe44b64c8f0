-- ===== src/Fields.antt =====
-- The values of fields by their C++ types: serialize and deserialize of
-- include/barq_native/types.hpp, the value types of src/barq_native/internal/bridge, accessor::set of
-- include/barq_native/accessors.hpp and detach of the managed fields. An int64_t and the value of an
-- enum are their bits, as a number; `none` is an exception.
pub mod Conversions
pub mod Structs
pub mod Stored
pub mod Sample
mod Tests
use mathlib.Core.Option
use barq_native.Prelude.{
  ℕ, zero, suc, ◌+◌, ◌-◌, ◌%◌, ◌^◌, Bool, true, false, ◌&&◌, leb, Option, none, some, List, [], ◌∷◌,
  length, get_elem?, ◌>>=◌, if◌then◌else◌,
}
use barq_native.Prelude.Int.{ℤ}
use barq_native.Prelude.Bytes.{Bytes}
use barq_native.Query.{ColKey}

-- The size of the underlying type of an enum
pub data Width : Type 0 where
  bits8 bits16 bits32 bits64 : Width

abbrev pub modulus : Width → ℕ
modulus bits8 = 2 ^ 8
modulus bits16 = 2 ^ 16
modulus bits32 = 2 ^ 32
modulus bits64 = 2 ^ 64

abbrev pub sign_bit : Width → ℕ
sign_bit bits8 = 2 ^ 7
sign_bit bits16 = 2 ^ 15
sign_bit bits32 = 2 ^ 31
sign_bit bits64 = 2 ^ 63

-- An enum by whether its underlying type is signed, and how large it is
pub data Scalar : Type 0 where
  int64 double float boolean text uuid object_id decimal128 binary time_point : Scalar
  enumeration : Bool → Width → Scalar

pub data Field : Type 0 where
  plain optional : Scalar → Field
  primary_key indexed fulltext : Field → Field

-- The numbers of core, and what it prints and parses. A UUID and an ObjectId are their bytes, and a
-- Timestamp its seconds and nanoseconds.
pub record CoreTypes : Type 1 where
  pub Double : Type 0
  pub Float : Type 0
  pub Decimal : Type 0
  pub Instant : Type 0
  pub uuid_to_string : Bytes → Bytes
  pub uuid_from : Bytes → Option Bytes
  pub object_id_to_string : Bytes → Bytes
  pub object_id_from : Bytes → Option Bytes
  pub decimal_to_string : Decimal → Bytes
  pub decimal_from : Bytes → Option Decimal
  pub timestamp_from : Instant → ℤ × ℤ
  pub get_time_point : ℤ × ℤ → Instant

-- static_cast<int64_t> of an enum, and static_cast to an enum
unfoldable pub enum_to_int64 : Bool → Width → ℕ → ℕ
enum_to_int64 signed w v = if signed && leb (sign_bit w) v then v + (2 ^ 64 - modulus w) else v

unfoldable pub enum_from_int64 : Width → ℕ → ℕ
enum_from_int64 w v = v % modulus w

-- operator std::vector<uint8_t> of bridge::binary: the rounds of its loop from i on
unfoldable pub bytes_from : ℕ → ℕ → Bytes → Option Bytes
bytes_from zero i m_data = some []
bytes_from (suc rounds) i m_data = do
  b ← get_elem? m_data i
  v ← bytes_from rounds (suc i) m_data
  some (b ∷ v)

unfoldable pub to_vector : Bytes → Option Bytes
unfolding bytes_from
to_vector m_data = bytes_from (length m_data) 0 m_data

module _ (C : CoreTypes) where
  open C use {Double, Float, Decimal, Instant}

  abbrev pub Cpp : Scalar → Type 0
  Cpp int64 = ℕ
  Cpp double = Double
  Cpp float = Float
  Cpp boolean = Bool
  Cpp text = Bytes
  Cpp uuid = Bytes
  Cpp object_id = Bytes
  Cpp decimal128 = Decimal
  Cpp binary = Bytes
  Cpp time_point = Instant
  Cpp (enumeration signed w) = ℕ

  -- internal_type
  abbrev pub Internal : Scalar → Type 0
  Internal time_point = ℤ × ℤ
  Internal (enumeration signed w) = ℕ
  Internal t = Cpp t

  -- serialize, and the conversions of bridge::uuid, object_id, decimal128, binary and timestamp from
  -- the values of the caller
  unfoldable pub serialize : (t : Scalar) → Cpp t → Option (Internal t)
  unfolding enum_to_int64
  serialize int64 v = some v
  serialize double v = some v
  serialize float v = some v
  serialize boolean v = some v
  serialize text v = some v
  serialize uuid v = C.uuid_from (C.uuid_to_string v)
  serialize object_id v = C.object_id_from (C.object_id_to_string v)
  serialize decimal128 v = C.decimal_from (C.decimal_to_string v)
  serialize binary v = some v
  serialize time_point v = some (C.timestamp_from v)
  serialize (enumeration signed w) v = some (enum_to_int64 signed w v)

  unfoldable pub deserialize : (t : Scalar) → Internal t → Option (Cpp t)
  unfolding enum_from_int64 to_vector
  deserialize int64 v = some v
  deserialize double v = some v
  deserialize float v = some v
  deserialize boolean v = some v
  deserialize text v = some v
  deserialize uuid v = some v
  deserialize object_id v = some v
  deserialize decimal128 v = some v
  deserialize binary v = to_vector v
  deserialize time_point v = some (C.get_time_point v)
  deserialize (enumeration signed w) v = some (enum_from_int64 w v)

-- The columns of an object in core, with what is stored by its internal type
pub record CoreFields (C : CoreTypes) : Type 1 where
  pub Obj : Type 0
  pub set : (t : Scalar) → ColKey → Internal C t → Obj → Obj
  pub get : (t : Scalar) → ColKey → Obj → Internal C t
  pub set_null : ColKey → Obj → Obj
  pub is_null : ColKey → Obj → Bool

module _ (C : CoreTypes) (O : CoreFields C) where
  open O use {Obj, set, get, set_null, is_null}

  -- A wrapper is its member `value`.
  abbrev pub CppField : Field → Type 0
  CppField (plain t) = Cpp C t
  CppField (optional t) = Option (Cpp C t)
  CppField (primary_key f) = CppField f
  CppField (indexed f) = CppField f
  CppField (fulltext f) = CppField f

  unfoldable pub set_scalar : (t : Scalar) → ColKey → Cpp C t → Obj → Option Obj
  unfolding serialize
  set_scalar t key value obj = do v ← serialize C t value; some (set t key v obj)

  -- accessor<T>::set, and set of obj for a std::optional
  unfoldable pub accessor_set : (f : Field) → ColKey → CppField f → Obj → Option Obj
  unfolding set_scalar
  accessor_set (plain t) key value obj = set_scalar t key value obj
  accessor_set (optional t) key none obj = some (set_null key obj)
  accessor_set (optional t) key (some value) obj = set_scalar t key value obj
  accessor_set (primary_key f) key value obj = accessor_set f key value obj
  accessor_set (indexed f) key value obj = accessor_set f key value obj
  accessor_set (fulltext f) key value obj = accessor_set f key value obj

  -- get_optional of obj, read as the type of the field
  unfoldable pub get_optional : (t : Scalar) → ColKey → Obj → Option (Option (Cpp C t))
  unfolding deserialize
  get_optional t m_key m_obj =
      let found = Option.map some (deserialize C t (get t m_key m_obj)) in
      if is_null m_key m_obj then some none else found

  -- detach of managed<T>
  unfoldable pub detach : (f : Field) → ColKey → Obj → Option (CppField f)
  unfolding get_optional deserialize
  detach (plain t) m_key m_obj = deserialize C t (get t m_key m_obj)
  detach (optional t) m_key m_obj = get_optional t m_key m_obj
  detach (primary_key f) m_key m_obj = detach f m_key m_obj
  detach (indexed f) m_key m_obj = detach f m_key m_obj
  detach (fulltext f) m_key m_obj = detach f m_key m_obj

  -- A member of a struct, with its column and its value
  pub record MemberValue : Type 0 where
    pub key : ColKey
    pub type : Field
    pub value : CppField type

  -- std::apply over the members of a struct
  unfoldable pub assign_members : List MemberValue → Obj → Option Obj
  unfolding accessor_set
  assign_members [] obj = some obj
  assign_members (m ∷ ms) obj = do
    obj' ← accessor_set m.type m.key m.value obj
    assign_members ms obj'
