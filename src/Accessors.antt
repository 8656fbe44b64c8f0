-- ===== src/Accessors.antt =====
-- include/barq_native/accessors.hpp, which writes the fields of a struct to an object, and the
-- writes of whole lists in src/barq_native/internal/bridge/obj.cpp. `none` is an exception of core.
pub mod Lists
pub mod Maps
pub mod Pointers
mod Tests
use barq_native.Prelude.{
  ℕ, zero, suc, ◌+◌, ◌≤◌, ◌<◌, ◌≡◌, Bool, true, false, not, is_empty, Option, none, some, List, [],
  ◌∷◌, ◌++◌, length, ◌>>=◌, if◌then◌else◌,
}
use mathlib.Core.Option
use barq_native.Query.{ColKey}
use barq_native.Managed.{Column}
use barq_native.Managed.Links.{ObjectStore, StructSchema}

-- accessor::set of a value and of an optional value, and of an enum and a primary key, by what is
-- stored for one
module _ {A T : Type 0} (C : Column A) (stored : T → A) where
  unfoldable pub set_value : ColKey → T → C.Obj → C.Obj
  set_value key value obj = C.set obj key (stored value)

  unfoldable pub set_optional : ColKey → Option T → C.Obj → C.Obj
  set_optional key none obj = C.set_null obj key
  set_optional key (some value) obj = C.set obj key (stored value)

-- A list column of one object in core. insert throws beyond the end.
pub record ListColumn : Type 1 where
  pub Coll : Type 0
  pub Element : Type 0
  pub null : Element
  pub set_all : List Element → Coll → Coll
  pub add : Element → Coll → Coll
  pub insert : ℕ → Element → Coll → Option Coll

module _ (M : ListColumn) where
  open M use {Coll, Element, null, set_all, add, insert}

  -- obj::set_list_values, for most types of elements
  unfoldable pub set_list_values : List Element → Coll → Coll
  set_list_values values list = set_all values list

  -- of bool
  unfoldable pub add_each : List Element → Coll → Coll
  add_each [] list = list
  add_each (v ∷ values) list = add_each values (add v list)

  unfoldable pub set_list_values_bool : List Element → Coll → Coll
  unfolding add_each
  set_list_values_bool values list =
      let added = add_each values list in if is_empty values then list else added

  -- of mixed, from index i on
  unfoldable pub insert_each : ℕ → List Element → Coll → Option Coll
  insert_each i [] list = some list
  insert_each i (v ∷ values) list = do list' ← insert i v list; insert_each (suc i) values list'

  unfoldable pub set_list_values_mixed : List Element → Coll → Option Coll
  unfolding insert_each
  set_list_values_mixed values list = insert_each 0 values list

  -- of optional texts, keys, uuids, object ids, binaries and timestamps, from index i on
  unfoldable pub insert_each_optional : ℕ → List (Option Element) → Coll → Option Coll
  insert_each_optional i [] list = some list
  insert_each_optional i (some v ∷ values) list = do
    list' ← insert i v list
    insert_each_optional (suc i) values list'
  insert_each_optional i (none ∷ values) list = do
    list' ← insert i null list
    insert_each_optional (suc i) values list'

  unfoldable pub set_list_values_optional : List (Option Element) → Coll → Option Coll
  unfolding insert_each_optional
  set_list_values_optional values list = insert_each_optional 0 values list

-- The list of links of one object, with the objects of the file
pub record LinkColumn (S : ObjectStore) : Type 0 where
  pub add : S.Key → S.Db → S.Db
  pub create_and_insert_linked_object : ℕ → S.Db → Option (S.Db × S.Key)

module _ (S : ObjectStore) where
  open S use {Db, Key, Fields, create_object_with_primary_key, create_object, assign_fields}

  -- accessor<std::vector<T*>>::set, from index i on
  unfoldable pub set_pointers :
      LinkColumn S → StructSchema S → ℕ → List (Option Fields) → Db → Option Db
  set_pointers M schema i [] db = some db
  set_pointers M schema i (none ∷ value) db = set_pointers M schema (suc i) value db
  set_pointers M schema i (some lnk ∷ value) db = do
    (db', m_obj) ← elim schema.primary_key [
      | some pk ↦ some (create_object_with_primary_key (pk lnk) db)
      | none ↦
          if schema.is_embedded
          then M.create_and_insert_linked_object i db
          else some (create_object db)
    ]
    let assigned = assign_fields lnk m_obj db'
    set_pointers M schema (suc i) value
        (if schema.is_embedded then assigned else M.add m_obj assigned)

  -- accessor<T*>::set, which leaves the link as it is when the pointer is null
  unfoldable pub set_pointer : StructSchema S → Option Fields → Key → ColKey → Db → Db
  set_pointer schema none obj key db = db
  set_pointer schema (some value) obj key db = elim schema.primary_key [
    | some pk ↦
        let (db', m_obj) = create_object_with_primary_key (pk value) db in
        assign_fields value m_obj (S.set obj key m_obj db')
    | none ↦
        let (made, linked) = S.create_and_set_linked_object obj key db in
        let (db', m_obj) = create_object db in
        if schema.is_embedded
        then assign_fields value linked made
        else assign_fields value m_obj (S.set obj key m_obj db')
  ]
