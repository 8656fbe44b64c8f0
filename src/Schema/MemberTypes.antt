-- ===== src/Schema/MemberTypes.antt =====
-- include/barq_native/internal/type_info.hpp: the C++ types that a member may have, the columns of
-- core that hold them, and the property that schema.hpp declares for a member. `none` is a type for
-- which no type_info is specialised, so that the struct does not compile.
use barq_native.Prelude.{ℕ, Bool, true, false, ◌&&◌, ◌||◌, Option, none, some, ◌>>=◌, if◌then◌else◌}
use mathlib.Core.Option
use barq_native.Prelude.Bytes.{Bytes}
use barq_native.Schema.{
  Kind, int, boolean, string, blob, date, float, double, object, linking_objects, mixed, object_id,
  decimal, uuid, PropertyType, or_nullable, Member, value, vector_of_links, set_of_links,
  map_of_links, map_of_optional_links, link, backlink, Declared,
}

-- A pointer to a struct, and a backlink, has the name of the schema of the struct.
mutual
  pub data CppType : Type 0 where
    std_monostate std_string c_string int64 int32 enumeration double_type float_type bool_type :
        CppType
    uuid_type object_id_type decimal128_type bytes_type time_point_type vector_indexed_type :
        CppType
    pointer : Bytes → CppType
    linking : Bytes → CppType
    std_variant : Alternatives → CppType
    std_optional std_vector std_set std_map primary_key indexed fulltext : CppType → CppType

  pub data Alternatives : Type 0 where
    no_more : Alternatives
    alternative : CppType → Alternatives → Alternatives

-- The families of internal_type that is_primitive tells apart
pub data Internal : Type 0 where
  scalar_internal obj_key_internal list_internal dictionary_internal set_internal : Internal
  optional_internal : Internal → Internal

abbrev pub plain_type : Kind → PropertyType
plain_type k = record { kind = k; nullable = false; array = false; set = false; dictionary = false }

-- type | property::type::Array, and the others
abbrev pub or_array : PropertyType → PropertyType
or_array t = record t { array = true }

abbrev pub or_set : PropertyType → PropertyType
or_set t = record t { set = true }

abbrev pub or_dictionary : PropertyType → PropertyType
or_dictionary t = record t { dictionary = true }

abbrev pub is_primitive : Internal → Bool
is_primitive obj_key_internal = false
is_primitive (optional_internal obj_key_internal) = false
is_primitive list_internal = false
is_primitive dictionary_internal = false
is_primitive _ = true

-- type_info<T>::internal_type
unfoldable mutual
  pub internal_type : CppType → Option Internal
  internal_type (pointer name) = some obj_key_internal
  internal_type (linking name) = some obj_key_internal
  internal_type (std_variant ts) = if check_variant_types ts then some scalar_internal else none
  internal_type (std_optional t) = Option.map optional_internal (internal_type t)
  internal_type (std_vector t) = some list_internal
  internal_type (std_set t) = some set_internal
  internal_type (std_map t) = some dictionary_internal
  internal_type (primary_key t) = internal_type t
  internal_type (indexed t) = internal_type t
  internal_type (fulltext t) = internal_type t
  internal_type vector_indexed_type = some list_internal
  internal_type _ = some scalar_internal

  pub check_variant_types : Alternatives → Bool
  check_variant_types no_more = true
  check_variant_types (alternative std_monostate ts) = check_variant_types ts
  check_variant_types (alternative t ts) = elim (internal_type t) [
    | none ↦ false
    | some i ↦ is_primitive i && check_variant_types ts
  ]

-- type_info<T>::type()
unfoldable pub type_of : CppType → Option PropertyType
unfolding check_variant_types
type_of std_monostate = some (plain_type mixed)
type_of std_string = some (plain_type string)
type_of c_string = some (plain_type string)
type_of int64 = some (plain_type int)
type_of int32 = some (plain_type int)
type_of enumeration = some (plain_type int)
type_of double_type = some (plain_type double)
type_of float_type = some (plain_type float)
type_of bool_type = some (plain_type boolean)
type_of uuid_type = some (plain_type uuid)
type_of object_id_type = some (plain_type object_id)
type_of decimal128_type = some (plain_type decimal)
type_of bytes_type = some (plain_type blob)
type_of time_point_type = some (plain_type date)
type_of vector_indexed_type = some (or_array (plain_type float))
type_of (pointer name) = some (plain_type object)
type_of (linking name) = some (or_array (plain_type linking_objects))
type_of (std_variant ts) =
    if check_variant_types ts then some (or_nullable (plain_type mixed)) else none
type_of (std_optional t) = Option.map or_nullable (type_of t)
type_of (std_vector t) = Option.map or_array (type_of t)
type_of (std_set t) = Option.map or_set (type_of t)
type_of (std_map t) = Option.map or_dictionary (type_of t)
type_of (primary_key t) = type_of t
type_of (indexed t) = type_of t
type_of (fulltext t) = type_of t

-- is_vector, is_set, is_map, is_pointer, is_backlink and is_link, as operator property asks them. A
-- const char* is a pointer to them, to a type that has no schema: `none` is a member for which the
-- operator does not compile.
unfoldable pub member_of : CppType → Option Member
member_of (std_vector (pointer name)) = some (vector_of_links name)
member_of (std_vector c_string) = none
member_of (std_set (pointer name)) = some (set_of_links name)
member_of (std_set c_string) = none
member_of (std_map (pointer name)) = some (map_of_links name)
member_of (std_map c_string) = none
member_of (std_map (std_optional (pointer name))) = some (map_of_optional_links name)
member_of (std_map (std_optional c_string)) = none
member_of (pointer name) = some (link name)
member_of c_string = none
member_of (linking name) = some backlink
member_of _ = some value

unfoldable pub is_primary_key : CppType → Bool
is_primary_key (primary_key t) = true
is_primary_key _ = false

unfoldable pub is_indexed : CppType → Bool
is_indexed (indexed t) = true
is_indexed _ = false

unfoldable pub is_fulltext_indexed : CppType → Bool
is_fulltext_indexed (fulltext t) = true
is_fulltext_indexed _ = false

-- The flags that property<Ptr, IsPrimaryKey, IsIndexed, IsFulltext> is given
pub record Flags : Type 0 where
  pub primary : Bool
  pub search : Bool
  pub text : Bool

-- schemagen::property<Ptr, ...>(name), for a member of type T
unfoldable pub declare_property : ℕ → Bytes → Flags → CppType → Option Declared
unfolding type_of member_of is_primary_key is_indexed is_fulltext_indexed
declare_property ptr name flags t = do
  type ← type_of t
  member ← member_of t
  some (record {
    ptr = ptr;
    member = member;
    type = type;
    name = name;
    is_primary_key = flags.primary || is_primary_key t;
    is_indexed = flags.search || is_indexed t;
    is_fulltext_indexed = flags.text || is_fulltext_indexed t;
  })
