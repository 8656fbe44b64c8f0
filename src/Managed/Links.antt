-- ===== src/Managed/Links.antt =====
-- include/barq_native/link.hpp: managed<T*>, the field of an object that links to another object,
-- and ref_type, which holds the object that it leads to.
pub mod Assignment
pub mod Comparison
pub mod Sample
mod Tests
use barq_native.Prelude.{
  ◌≡◌, Bool, true, false, not, ◌&&◌, Option, none, some, ◌>>=◌, if◌then◌else◌,
}
use barq_native.Query.{QueryEngine, link, ColKey}
use barq_native.Query.Rbool.{Rbool, link_equal, link_not_equal}
use barq_native.Managed.{Compared, in_query, in_object}

-- What core does with the objects of an open file. Every object has a key, and a column of links
-- has the key of an object or null.
pub record ObjectStore : Type 1 where
  pub Db : Type 0
  pub Key : Type 0
  pub Pk : Type 0
  -- a value of the caller's struct
  pub Fields : Type 0
  pub equal_keys : Key → Key → Bool
  pub create_object_with_primary_key : Pk → Db → Db × Key
  pub create_object : Db → Db × Key
  pub create_and_set_linked_object : Key → ColKey → Db → Db × Key
  pub linked_object : Key → ColKey → Db → Option Key
  pub set : Key → ColKey → Key → Db → Db
  pub set_null : Key → ColKey → Db → Db
  -- accessor::set and detach of every property of the struct; fields_as is detach from an object that
  -- may be of another table, whose columns are found by the names of the properties. `none` is an
  -- exception.
  pub assign_fields : Fields → Key → Db → Db
  pub fields_of : Key → Db → Option Fields
  pub fields_as : Key → Db → Option Fields

-- managed<T>::schema: the primary key of a struct, if it has one, and whether T is embedded.
pub record StructSchema (S : ObjectStore) : Type 0 where
  pub primary_key : Option (S.Fields → S.Pk)
  pub is_embedded : Bool

-- A managed object: m_barq and m_obj. The files that are open are told apart by a type with a test.
pub record ManagedObject (Barq : Type 0) (S : ObjectStore) : Type 0 where
  pub m_barq : Barq
  pub m_table : ColKey
  pub m_obj : S.Key

module _ (S : ObjectStore) where
  open S use {
    Db, Key, Pk, Fields, create_object_with_primary_key, create_object,
    create_and_set_linked_object, linked_object, set, set_null, assign_fields, fields_of, fields_as,
  }

  -- operator=(T*)
  unfoldable pub assign_pointer : StructSchema S → Option Fields → Key → ColKey → Db → Db
  assign_pointer schema none m_obj m_key db = set_null m_obj m_key db
  assign_pointer schema (some o) m_obj m_key db = elim schema.primary_key [
    | some pk ↦
        let (db', obj) = create_object_with_primary_key (pk o) db in
        assign_fields o obj (set m_obj m_key obj db')
    | none ↦
        let (made, obj) = create_and_set_linked_object m_obj m_key db in
        let (db', other) = create_object db in
        if schema.is_embedded
        then assign_fields o obj made
        else assign_fields o other (set m_obj m_key other db')
  ]

  -- operator=(const managed<T>&)
  unfoldable pub assign_object : Key → Key → ColKey → Db → Db
  assign_object obj m_obj m_key db = set m_obj m_key obj db

  -- operator=(const managed<T*>&): `obj` is the object that the other field belongs to.
  unfoldable pub assign_link : Key → ColKey → Key → ColKey → Db → Db
  assign_link obj key m_obj m_key db = set m_obj m_key obj db

  -- operator=(std::nullptr_t)
  unfoldable pub assign_null : Key → ColKey → Db → Db
  assign_null m_obj m_key db = set_null m_obj m_key db

  -- detach, which reads the object of the field itself as a T when the link is null
  unfoldable pub detach : Key → ColKey → Db → Option Fields
  detach m_obj m_key db = elim (linked_object m_obj m_key db) [
    | none ↦ fields_as m_obj db
    | some obj ↦ fields_of obj db
  ]

  -- operator bool, of a field of an object
  unfoldable pub to_bool : Key → ColKey → Db → Bool
  to_bool m_obj m_key db = elim (linked_object m_obj m_key db) [ none ↦ false | some obj ↦ true ]

  -- whether the linked object has a key
  abbrev leads_to : Option Key → Key → Bool
  leads_to none key = false
  leads_to (some obj) key = S.equal_keys obj key

  module _ {Barq : Type 0} (equal_barqs : Barq → Barq → Bool)
      (equal_tables : ColKey → ColKey → Bool) where
    -- operator==(const ref_type&) and operator==(const managed<T>&) of ref_type
    unfoldable pub ref_equal : ManagedObject Barq S → ManagedObject Barq S → Bool
    ref_equal m_managed rhs =
        if not (equal_barqs m_managed.m_barq rhs.m_barq)
        then false
        else equal_tables m_managed.m_table rhs.m_table && S.equal_keys m_managed.m_obj rhs.m_obj

    -- operator!= of ref_type
    unfoldable pub ref_not_equal : ManagedObject Barq S → ManagedObject Barq S → Bool
    unfolding ref_equal
    ref_not_equal m_managed rhs = not (ref_equal m_managed rhs)

    -- operator==(const managed<T*>&) of ref_type, where rhs is the object of the field
    unfoldable pub ref_equal_link : ManagedObject Barq S → ManagedObject Barq S → Bool
    ref_equal_link m_managed rhs =
        if not (equal_barqs m_managed.m_barq rhs.m_barq)
        then false
        else S.equal_keys m_managed.m_obj rhs.m_obj

  module _ (E : QueryEngine) (link_value : Key → E.Value link) {Barq : Type 0}
      (equal_barqs : Barq → Barq → Bool) where
    -- operator==(std::nullptr_t)
    unfoldable pub equal_null : Option (Rbool E) → Key → ColKey → Db → Compared E
    unfolding to_bool
    equal_null m_rbool_query m_obj m_key db = elim m_rbool_query [
      | some r ↦ in_query E (link_equal E m_key none r)
      | none ↦ in_object E (not (to_bool m_obj m_key db))
    ]

    -- operator!=(std::nullptr_t)
    unfoldable pub not_equal_null : Option (Rbool E) → Key → ColKey → Db → Compared E
    unfolding to_bool
    not_equal_null m_rbool_query m_obj m_key db = elim m_rbool_query [
      | some r ↦ in_query E (link_not_equal E m_key none r)
      | none ↦ in_object E (to_bool m_obj m_key db)
    ]

    -- operator==(const managed<T>&), on a field of an object of the file m_barq
    unfoldable pub equal_object :
        Option (Rbool E) → Barq → Key → ColKey → Db → ManagedObject Barq S → Compared E
    equal_object m_rbool_query m_barq m_obj m_key db rhs = elim m_rbool_query [
      | some r ↦ in_query E (link_equal E m_key (some (link_value rhs.m_obj)) r)
      | none ↦ in_object E (
          if not (equal_barqs m_barq rhs.m_barq)
          then false
          else leads_to (linked_object m_obj m_key db) rhs.m_obj)
    ]

    -- operator!=(const managed<T>&)
    unfoldable pub not_equal_object :
        Option (Rbool E) → Barq → Key → ColKey → Db → ManagedObject Barq S → Compared E
    unfolding to_bool
    not_equal_object m_rbool_query m_barq m_obj m_key db rhs = elim m_rbool_query [
      | some r ↦ in_query E (link_not_equal E m_key (some (link_value rhs.m_obj)) r)
      | none ↦ in_object E (to_bool m_obj m_key db)
    ]
