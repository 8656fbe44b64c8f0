-- ===== src/Managed/Links/Assignment.antt =====
-- What an assignment to a link leads to.
use barq_native.Prelude.{
  ◌≡◌, refl, ◌∙◌, Bool, true, false, Option, none, some, List, Option-cases, Bool-cases, inl, inr,
}
use barq_native.Query.{ColKey}
use barq_native.Fields.{CoreTypes, CoreFields}
use barq_native.Fields.Conversions.{PrintsItsValues}
use barq_native.Fields.Structs.{IsObject, IsStruct}
use barq_native.Fields.Stored.{
  StructMember, CoreObjects, Struct, values, assign_struct, assign_struct-other, struct_store,
  PutsObjects, struct-reads_back,
}
use barq_native.Managed.Links.{StructSchema, assign_pointer, detach, to_bool}

module _ (C : CoreTypes) (O : CoreFields C) (K : CoreObjects C O) where
  open K use {Db, Key, create_and_set_linked_object, linked_object, set, set_null, put}

  -- The documented behaviour: a link is read back as it was set, and scalar columns that are put
  -- change no link.
  pub record IsStore : Type 0 where
    pub linked_object-set :
        (m_obj obj : Key) (m_key : ColKey) (db : Db)
        → linked_object m_obj m_key (set m_obj m_key obj db) ≡ some obj
    pub linked_object-set_null :
        (m_obj : Key) (m_key : ColKey) (db : Db)
        → linked_object m_obj m_key (set_null m_obj m_key db) ≡ none
    pub linked_object-create :
        (m_obj : Key) (m_key : ColKey) (db : Db)
        → linked_object m_obj m_key (create_and_set_linked_object m_obj m_key db).0
          ≡ some (create_and_set_linked_object m_obj m_key db).1
    pub linked_object-put :
        (m_obj : Key) (m_key : ColKey) (obj : Key) (written : O.Obj) (db : Db)
        → linked_object m_obj m_key (put obj written db) ≡ linked_object m_obj m_key db
    pub object-put : PutsObjects C O K

  module _ (ms : List StructMember) where
    abbrev pub is_some : Option (Struct C O ms) → Bool
    is_some none = false
    is_some (some o) = true

    -- What detach gives: the struct that was assigned, or what is read when there is none
    abbrev pub given_or : Option (Struct C O ms) → Option (Struct C O ms) → Option (Struct C O ms)
    given_or (some o) read = some o
    given_or none read = read

    -- The members have columns of their own, and values that their types have.
    abbrev pub IsPointee : Option (Struct C O ms) → Type 0
    IsPointee none = Unit
    IsPointee (some v) = IsStruct C O (values C O ms v)

    -- What assign_pointer leaves: a link to an object that has the members.
    record LeadsTo (o : Struct C O ms) (m_obj : Key) (m_key : ColKey) (db : Db) : Type 0 where
      object : Key
      leads : linked_object m_obj m_key db ≡ some object
      has : (struct_store C O K ms).fields_of object db ≡ some o

    module _ (P : PrintsItsValues C) (F : IsObject C O) (L : IsStore) where
      assigned :
          (m_obj : Key) (m_key : ColKey) (o : Struct C O ms) (obj : Key) (db : Db)
          → IsStruct C O (values C O ms o)
          → linked_object m_obj m_key db ≡ some obj
          → LeadsTo o m_obj m_key (assign_struct C O K ms o obj db)
      assigned m_obj m_key o obj db h e = record {
        object = obj;
        leads =
            assign_struct-other C O K ms (linked_object m_obj m_key)
              (L.linked_object-put m_obj m_key) o obj db
            ∙ e;
        has = struct-reads_back C O P F K L.object-put ms o obj db h;
      }

      assign_pointer-LeadsTo :
          (schema : StructSchema (struct_store C O K ms)) (o : Struct C O ms) (m_obj : Key)
          (m_key : ColKey) (db : Db)
          → IsStruct C O (values C O ms o)
          → LeadsTo o m_obj m_key
              (assign_pointer (struct_store C O K ms) schema (some o) m_obj m_key db)
      unfolding assign_pointer
      assign_pointer-LeadsTo schema o m_obj m_key db h = elim (Option-cases schema.primary_key) [
        | inl e ↦ elim (Bool-cases schema.is_embedded) [
          | inl b ↦ rw (e, b) (assigned m_obj m_key o _ _ h (L.linked_object-create m_obj m_key db))
          | inr b ↦ rw (e, b) (assigned m_obj m_key o _ _ h (L.linked_object-set m_obj _ m_key _))
        ]
        | inr (pk, e) ↦ rw (e) (assigned m_obj m_key o _ _ h (L.linked_object-set m_obj _ m_key _))
      ]

      -- Over objects of core that meet their laws, for a struct of scalar members that have
      -- columns of their own, with a primary key or none and embedded or not: a pointer that is
      -- assigned to a field leaves it set exactly when it is not null, and detach then gives the
      -- struct that it points to, when its values are ones of their types; for a null pointer it
      -- gives, or throws, what reading the object that the field belongs to as such a struct
      -- does.
      pub assign_pointer-detach :
          (schema : StructSchema (struct_store C O K ms)) (o : Option (Struct C O ms)) (m_obj : Key)
          (m_key : ColKey) (db : Db)
          → IsPointee o
          → (to_bool
                (struct_store C O K ms)
                m_obj
                m_key
                (assign_pointer (struct_store C O K ms) schema o m_obj m_key db)
              ≡ is_some o)
            × (detach
                  (struct_store C O K ms)
                  m_obj
                  m_key
                  (assign_pointer (struct_store C O K ms) schema o m_obj m_key db)
                ≡ given_or o (
                    (struct_store C O K ms).fields_as m_obj
                      (assign_pointer (struct_store C O K ms) schema o m_obj m_key db)))
      unfolding assign_pointer to_bool detach
      assign_pointer-detach schema none m_obj m_key db h =
          let e = L.linked_object-set_null m_obj m_key db in
          (rw (to_bool, e) refl, rw (detach, e) refl)
      assign_pointer-detach schema (some o) m_obj m_key db h =
          let r = assign_pointer-LeadsTo schema o m_obj m_key db h in
          (rw (to_bool, r.leads) refl, rw (detach, r.leads) r.has)
