-- ===== src/Managed/Dictionary/Boxes.antt =====
-- include/barq_native/managed_dictionary.hpp: the box that stands for the link at a key of a
-- dictionary, on an object and in a query, and detach of a dictionary of pointers. `none` is an
-- exception of core.
use mathlib.Core.Option
use barq_native.Prelude.{
  ◌≡◌, refl, sym, ap, ◌∙◌, Bool, false, not, Option, none, some, List, [], ◌∷◌, ◌>>=◌,
  if◌then◌else◌,
}
use barq_native.Prelude.Bytes.{Bytes}
use barq_native.Query.{QueryEngine, mixed, equal, not_equal, ColKey}
use barq_native.Query.Rbool.{
  Rbool, DictionaryContext, negation, dictionary_has_value_for_key, add_dictionary_link_chain,
}
use barq_native.Managed.{Compared, in_query, in_object}
use barq_native.Managed.Links.{ObjectStore, StructSchema, ManagedObject}
use barq_native.Fields.{CoreTypes, CoreFields}
use barq_native.Fields.Conversions.{PrintsItsValues}
use barq_native.Fields.Structs.{IsObject, IsStruct}
use barq_native.Fields.Stored.{
  StructMember, CoreObjects, Struct, values, assign_struct, assign_struct-other, struct_store,
  PutsObjects, struct-reads_back,
}
use barq_native.Accessors.Maps.{LinkEntries, set_entry}

-- get_object of core's dictionaries, which gives an object that is not valid for an entry that is
-- null, and the entries of a dictionary in the order of get_pair
pub record LinkDictionary (S : ObjectStore) : Type 0 where
  pub entries : LinkEntries S
  pub get_object : Bytes → S.Db → Option (Option S.Key)
  pub keys : S.Db → List Bytes

module _ (S : ObjectStore) (M : LinkDictionary S) where
  open S use {Db, Key, Fields, equal_keys, assign_fields, fields_of}
  open M use {entries, get_object}

  -- operator=(V*)
  unfoldable pub box_assign_pointer : StructSchema S → Bytes → Option Fields → Db → Db
  box_assign_pointer schema m_key none db = entries.insert m_key none db
  box_assign_pointer schema m_key (some o) db =
      let (db', m_obj) =
        entries.create_and_insert_linked_object m_key (Option.map (λ pk. pk o) schema.primary_key)
          db in
      assign_fields o m_obj db'

  -- operator=(const managed<V>&)
  unfoldable pub box_assign_object : Bytes → Key → Db → Db
  box_assign_object m_key obj db = entries.insert m_key (some obj) db

  -- operator*, where std::nullopt is a link that is null
  unfoldable pub box_dereference : Bytes → Db → Option (Option Key)
  box_dereference m_key db = get_object m_key db

  -- The loop of detach over the entries of a dictionary of pointers; the members of an object that is
  -- not valid cannot be read.
  unfoldable pub detach_each : List Bytes → Db → Option (List (Bytes × Fields))
  detach_each [] db = some []
  detach_each (k ∷ keys) db = do
    found ← get_object k db
    obj ← found
    v ← fields_of obj db
    rest ← detach_each keys db
    some ((k, v) ∷ rest)

  unfoldable pub detach_pointers : Db → Option (List (Bytes × Fields))
  unfolding detach_each
  detach_pointers db = detach_each (M.keys db) db

  abbrev has_key : Option Key → Key → Bool
  has_key none key = false
  has_key (some obj) key = equal_keys obj key

  module _ (E : QueryEngine) (link_value : Option (ColKey × Key) → E.Value mixed) {Barq : Type 0}
      (equal_barqs : Barq → Barq → Bool) where
    -- operator==(const managed<V*>&): rhs is the object that the field belongs to, and `is_set`
    -- whether the field has a link
    unfoldable pub box_equal_link :
        ColKey → Bytes → Option (Rbool E) → Barq → Db → ManagedObject Barq S → Bool → Compared E
    box_equal_link m_col_key m_key m_rbool_query m_barq db rhs is_set = elim m_rbool_query [
      | some r ↦
          let value = link_value (if is_set then some (rhs.m_table, rhs.m_obj) else none) in
          in_query E (dictionary_has_value_for_key E equal m_col_key m_key value r)
      | none ↦ do
        a ← get_object m_key db
        in_object E (if not (equal_barqs m_barq rhs.m_barq) then false else has_key a rhs.m_obj)
    ]

    unfoldable pub box_not_equal_link :
        ColKey → Bytes → Option (Rbool E) → Barq → Db → ManagedObject Barq S → Bool → Compared E
    unfolding box_equal_link
    box_not_equal_link m_col_key m_key m_rbool_query m_barq db rhs is_set = elim m_rbool_query [
      | some r ↦
          let value = link_value (if is_set then some (rhs.m_table, rhs.m_obj) else none) in
          in_query E (dictionary_has_value_for_key E not_equal m_col_key m_key value r)
      | none ↦ do
        (q, x) ← box_equal_link m_col_key m_key none m_barq db rhs is_set
        some (q, (negation E x).1)
    ]

    -- operator==(const managed<V>&)
    unfoldable pub box_equal_object :
        ColKey → Bytes → Option (Rbool E) → Barq → Db → ManagedObject Barq S → Compared E
    box_equal_object m_col_key m_key m_rbool_query m_barq db rhs = elim m_rbool_query [
      | some r ↦
          let value = link_value (some (rhs.m_table, rhs.m_obj)) in
          in_query E (dictionary_has_value_for_key E equal m_col_key m_key value r)
      | none ↦ do
        a ← get_object m_key db
        in_object E (if not (equal_barqs m_barq rhs.m_barq) then false else has_key a rhs.m_obj)
    ]

    unfoldable pub box_not_equal_object :
        ColKey → Bytes → Option (Rbool E) → Barq → Db → ManagedObject Barq S → Compared E
    unfolding box_equal_object
    box_not_equal_object m_col_key m_key m_rbool_query m_barq db rhs = elim m_rbool_query [
      | some r ↦
          let value = link_value (some (rhs.m_table, rhs.m_obj)) in
          in_query E (dictionary_has_value_for_key E not_equal m_col_key m_key value r)
      | none ↦ do
        (q, x) ← box_equal_object m_col_key m_key none m_barq db rhs
        some (q, (negation E x).1)
    ]

    -- operator->: in a query the key goes to the rbool for the comparison that follows
    unfoldable pub box_arrow :
        ColKey → Bytes → Option (Rbool E) → Db → Option (Option (Rbool E) × Option Key)
    box_arrow m_col_key m_key m_rbool_query db = elim m_rbool_query [
      | some r ↦
          let ctx : DictionaryContext = record { origin_col_key = m_col_key; key = m_key } in
          some (some (add_dictionary_link_chain E ctx r), none)
      | none ↦ do obj ← get_object m_key db; some (none, obj)
    ]

  -- What the object at a key is read as
  abbrev pub value_of : Bytes → Db → Option (Option Fields)
  value_of k db = do
    found ← box_dereference k db
    elim found [ none ↦ some none | some obj ↦ Option.map some (fields_of obj db) ]

module _ (C : CoreTypes) (O : CoreFields C) (K : CoreObjects C O) (ms : List StructMember)
    (M : LinkDictionary (struct_store C O K ms)) where
  open K use {Db, Key, put}
  open M use {entries, get_object}

  -- The documented behaviour: an object that is made at a key is the entry there, scalar columns
  -- that are put change no entry, an entry that is inserted where it is changes nothing, and
  -- get_object gives what an entry has.
  pub record HasLinks : Type 0 where
    pub get-create :
        (k : Bytes) (pk : Option K.Pk) (db : Db)
        → entries.get k (entries.create_and_insert_linked_object k pk db).0
          ≡ some (some (entries.create_and_insert_linked_object k pk db).1)
    pub get-put :
        (k : Bytes) (obj : Key) (written : O.Obj) (db : Db)
        → entries.get k (put obj written db) ≡ entries.get k db
    pub get-insert_null :
        (k : Bytes) (db : Db) → entries.get k (entries.insert k none db) ≡ some none
    pub insert_same :
        (k : Bytes) (x : Option Key) (db : Db)
        → entries.get k db ≡ some x
        → entries.insert k x db ≡ db
    pub get_object-get :
        (k : Bytes) (x : Option Key) (db : Db)
        → entries.get k db ≡ some x
        → get_object k db ≡ some x
    pub object-put : PutsObjects C O K

  -- The members have columns of their own, and values that their types have.
  abbrev pub IsPointee : Option (Struct C O ms) → Type 0
  IsPointee none = Unit
  IsPointee (some v) = IsStruct C O (values C O ms v)

  module _ (P : PrintsItsValues C) (F : IsObject C O) (L : HasLinks)
      (schema : StructSchema (struct_store C O K ms)) where
    -- Over a dictionary of links and objects of core that meet their laws, for a struct of scalar
    -- members that have columns of their own, with a primary key or none: a box to which a
    -- pointer is assigned leads to an object from which the struct is read, when its values are
    -- ones of their types, or to none when the pointer is null, and the file is as when
    -- accessor::set writes that entry of a map.
    pub box_assign_pointer-box_dereference :
        (m_key : Bytes) (v : Option (Struct C O ms)) (db : Db)
        → IsPointee v
        → (value_of
              (struct_store C O K ms)
              M
              m_key
              (box_assign_pointer (struct_store C O K ms) M schema m_key v db)
            ≡ some v)
          × (box_assign_pointer (struct_store C O K ms) M schema m_key v db
              ≡ set_entry (struct_store C O K ms) entries schema m_key v db)
    unfolding box_assign_pointer box_dereference set_entry
    box_assign_pointer-box_dereference m_key none db h =
        let found = L.get_object-get m_key none _ (L.get-insert_null m_key db) in
        (rw (found) refl, refl)
    box_assign_pointer-box_dereference m_key (some o) db h =
        let pk = Option.map (λ pk. pk o) schema.primary_key in
        let (db', m_obj) = entries.create_and_insert_linked_object m_key pk db in
        let after = assign_struct C O K ms o m_obj db' in
        let there : entries.get m_key after ≡ some (some m_obj) =
          assign_struct-other C O K ms (entries.get m_key) (L.get-put m_key) o m_obj db'
          ∙ L.get-create m_key pk db in
        (
          rw (L.get_object-get m_key (some m_obj) after there)
              (ap (Option.map some) (struct-reads_back C O P F K L.object-put ms o m_obj db' h)),
          sym (L.insert_same m_key (some m_obj) after there),
        )
