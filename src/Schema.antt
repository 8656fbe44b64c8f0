-- ===== src/Schema.antt =====
-- include/barq_native/schema.hpp: the schema of a struct of the caller, its conversion to the schema
-- of core, and the lookup of its members by pointer. The template recursions over the tuple of
-- properties are recursions over a list. What core makes by default is a parameter.
pub mod Keys
pub mod Lookup
pub mod MemberTypes
pub mod ColumnTypes
pub mod Declaration
mod TypeTests
mod Tests
use barq_native.Prelude.{
  ℕ, Bool, true, false, not, ◌&&◌, ◌||◌, Option, none, some, List, [], ◌∷◌, ◌++◌, ◌==◌,
  if◌then◌else◌,
}
use barq_native.Prelude.Bytes.{Bytes, bytes_eq}

-- internal::bridge::property::type: what is below its flags, and its flags.
pub data Kind : Type 0 where
  int boolean string blob date float double object linking_objects mixed object_id decimal uuid :
      Kind

pub record PropertyType : Type 0 where
  pub kind : Kind
  pub nullable : Bool
  pub array : Bool
  pub set : Bool
  pub dictionary : Bool

-- type | property::type::Nullable
abbrev pub or_nullable : PropertyType → PropertyType
or_nullable t = record {
  kind = t.kind;
  nullable = true;
  array = t.array;
  set = t.set;
  dictionary = t.dictionary;
}

-- The types of members that operator property tells apart; a link has the name of its schema.
-- `value` is every other type, and the collections of those.
pub data Member : Type 0 where
  value : Member
  vector_of_links set_of_links map_of_links map_of_optional_links link : Bytes → Member
  backlink : Member

-- schemagen::property. A member pointer is a number, which differs for every member of the struct.
pub record Declared : Type 0 where
  pub ptr : ℕ
  pub member : Member
  pub type : PropertyType
  pub name : Bytes
  pub is_primary_key : Bool
  pub is_indexed : Bool
  pub is_fulltext_indexed : Bool

-- The property of core
pub record CoreProperty : Type 0 where
  pub name : Bytes
  pub type : PropertyType
  pub object_type : Bytes
  pub is_primary : Bool
  pub is_indexed : Bool
  pub is_fulltext_indexed : Bool

pub data CoreObjectType : Type 0 where
  top_level embedded top_level_asymmetric : CoreObjectType

-- The object schema of core
pub record CoreSchema : Type 0 where
  pub name : Bytes
  pub persisted_properties : List CoreProperty
  pub primary_key : Bytes
  pub table_type : CoreObjectType

-- What core makes without arguments
pub record CoreDefaults : Type 0 where
  pub property : CoreProperty
  pub object_schema : CoreSchema

-- The constructor of core's property, and the setters of the bridge.
abbrev pub make_property : CoreProperty → Bytes → PropertyType → Bool → CoreProperty
make_property blank name type is_primary = record {
  name = name;
  type = type;
  object_type = blank.object_type;
  is_primary = is_primary;
  is_indexed = blank.is_indexed;
  is_fulltext_indexed = blank.is_fulltext_indexed;
}

unfoldable pub set_object_link : Bytes → CoreProperty → CoreProperty
set_object_link v p = record {
  name = p.name;
  type = p.type;
  object_type = v;
  is_primary = p.is_primary;
  is_indexed = p.is_indexed;
  is_fulltext_indexed = p.is_fulltext_indexed;
}

unfoldable pub set_type : PropertyType → CoreProperty → CoreProperty
set_type t p = record {
  name = p.name;
  type = t;
  object_type = p.object_type;
  is_primary = p.is_primary;
  is_indexed = p.is_indexed;
  is_fulltext_indexed = p.is_fulltext_indexed;
}

unfoldable pub set_indexed : Bool → CoreProperty → CoreProperty
set_indexed v p = record {
  name = p.name;
  type = p.type;
  object_type = p.object_type;
  is_primary = p.is_primary;
  is_indexed = v;
  is_fulltext_indexed = p.is_fulltext_indexed;
}

unfoldable pub set_fulltext_indexed : Bool → CoreProperty → CoreProperty
set_fulltext_indexed v p = record {
  name = p.name;
  type = p.type;
  object_type = p.object_type;
  is_primary = p.is_primary;
  is_indexed = p.is_indexed;
  is_fulltext_indexed = v;
}

-- The end of operator property, which only a backlink does not reach.
unfoldable pub with_indexes : Declared → CoreProperty → CoreProperty
unfolding set_indexed set_fulltext_indexed
with_indexes p q =
    let indexed = if p.is_indexed then set_indexed true q else q in
    if p.is_fulltext_indexed then set_fulltext_indexed true indexed else indexed

-- schemagen::property::operator property
unfoldable pub core_property : CoreDefaults → Declared → CoreProperty
unfolding with_indexes set_object_link set_type
core_property D p =
    let q = make_property D.property p.name p.type p.is_primary_key in
    elim p.member [
      | value ↦ with_indexes p q
      | vector_of_links target ↦ with_indexes p (set_object_link target q)
      | set_of_links target ↦ with_indexes p (set_object_link target q)
      | map_of_links target ↦
          with_indexes p (set_type (or_nullable p.type) (set_object_link target q))
      | map_of_optional_links target ↦
          with_indexes p (set_type (or_nullable p.type) (set_object_link target q))
      | link target ↦ with_indexes p (set_type (or_nullable p.type) (set_object_link target q))
      | backlink ↦ D.property
    ]

pub data ObjectType : Type 0 where
  none_type top_level_type embedded_type asymmetric_type : ObjectType

-- schemagen::schema; the tuples `ps` and `properties` are one list.
pub record Schema : Type 0 where
  pub name : Bytes
  pub names : List Bytes
  pub primary_key_name : Bytes
  pub ps : List Declared
  pub object_type : ObjectType

-- do_apply_name from its N-th property on: the names and the primary key's that it stores.
unfoldable pub do_apply_name : List Declared → List Bytes → Bytes → List Bytes × Bytes
do_apply_name [] names primary_key_name = (names, primary_key_name)
do_apply_name (p ∷ ps) names primary_key_name =
    do_apply_name ps (names ++ p.name ∷ []) (if p.is_primary_key then p.name else primary_key_name)

-- The constructor
unfoldable pub make_schema : Bytes → ObjectType → List Declared → Schema
unfolding do_apply_name
make_schema name object_type ps =
    let (names, primary_key_name) = do_apply_name ps [] [] in
    record {
      name = name;
      names = names;
      primary_key_name = primary_key_name;
      ps = ps;
      object_type = object_type;
    }

-- HasPrimaryKeyProperty
unfoldable pub has_primary_key : List Declared → Bool
has_primary_key [] = false
has_primary_key (p ∷ ps) = p.is_primary_key || has_primary_key ps

-- The fold of add_property over the properties
unfoldable pub add_properties : CoreDefaults → List Declared → List CoreProperty → List CoreProperty
unfolding core_property
add_properties D [] added = added
add_properties D (p ∷ ps) added =
    let q = core_property D p in
    let with_q = added ++ q ∷ [] in
    add_properties D ps (if bytes_eq q.name [] then added else with_q)

abbrev pub table_type_of : ObjectType → CoreObjectType → CoreObjectType
table_type_of embedded_type t = embedded
table_type_of asymmetric_type t = top_level_asymmetric
table_type_of _ t = t

unfoldable pub to_core_schema : CoreDefaults → Schema → CoreSchema
unfolding add_properties has_primary_key
to_core_schema D s = record {
  name = s.name;
  persisted_properties = add_properties D s.ps D.object_schema.persisted_properties;
  primary_key = if has_primary_key s.ps then s.primary_key_name else D.object_schema.primary_key;
  table_type = table_type_of s.object_type D.object_schema.table_type;
}

-- From its N-th property on
unfoldable pub name_for_from : ℕ → List Declared → Bytes
name_for_from ptr [] = []
name_for_from ptr (p ∷ ps) =
    let rest = name_for_from ptr ps in if ptr == p.ptr then p.name else rest

unfoldable pub name_for_property : Schema → ℕ → Bytes
unfolding name_for_from
name_for_property s ptr = name_for_from ptr s.ps
