-- ===== src/Managed/Set/Objects.antt =====
-- What insert of a pointer to a struct leaves in a set of links, and what detach then copies.
use barq_native.Prelude.{
  ℕ, zero, suc, ◌+◌, ◌≤◌, ◌<◌, ◌≡◌, ◌≢◌, refl, sym, ap, ◌∙◌, false, not, ◌&&◌, some, List, [], ◌∷◌,
  ◌>>=◌, if◌then◌else◌, Bool-cases, inl, inr, get_elem?, arith,
}
use barq_native.Fields.{CoreTypes, CoreFields}
use barq_native.Fields.Conversions.{PrintsItsValues}
use barq_native.Fields.Structs.{IsObject, IsStruct}
use barq_native.Fields.Stored.{
  StructMember, CoreObjects, Struct, values, struct_store, PutsObjects, read_members-total,
  struct-reads_back,
}
use barq_native.Managed.Links.{ObjectStore, StructSchema}
use barq_native.Managed.Set.{not_in_collection}
use barq_native.Managed.Set.Pointers.{
  LinkSet, dereference_pointer, detach_objects_from, detach_objects, make_struct, insert_struct,
  find_object,
}

module _ (S : ObjectStore) (M : LinkSet S) where
  open S use {Db, Key, Fields, fields_of}

  -- The documented behaviour: an index below the size has a link, find gives the index of a link
  -- that is in the set, and insert adds what is not there.
  pub record IsLinkSet : Type 0 where
    pub size_small : (db : Db) → M.size db < not_in_collection
    pub get_obj-bounds :
        (db : Db) (i : ℕ) → i < M.size db → (obj : Key) × (M.get_obj i db ≡ some obj)
    pub get_obj-find :
        (db : Db) (obj : Key)
        → M.find obj db ≢ not_in_collection
        → M.get_obj (M.find obj db) db ≡ some obj
    pub find-size :
        (db : Db) (obj : Key) → M.find obj db ≢ not_in_collection → M.find obj db < M.size db
    pub find-insert : (db : Db) (obj : Key) → M.find obj (M.insert obj db).0 ≡ (M.insert obj db).1.0
    pub insert-small : (db : Db) (obj : Key) → (M.insert obj db).1.0 ≢ not_in_collection
    pub insert_again : (db : Db) (obj : Key) → (M.insert obj (M.insert obj db).0).1.1 ≡ false

  -- Every object of the table is read.
  abbrev pub IsReadable : Type 0
  IsReadable = (obj : Key) (db : Db) → (v : Fields) × (fields_of obj db ≡ some v)

  module _ (this : ℕ) (L : IsLinkSet) (R : IsReadable) where
    place :
        (db : Db) (i left : ℕ) (v : Fields) (vs : List Fields) (obj : Key)
        → M.get_obj i db ≡ some obj
        → fields_of obj db ≡ some v
        → ((j : ℕ) (other : Key)
            → j < left
            → M.get_obj (suc i + j) db ≡ some other
            → get_elem? vs j ≡ fields_of other db)
        → (j : ℕ) (other : Key) → j < suc left
        → M.get_obj (i + j) db ≡ some other
        → get_elem? (v ∷ vs) j ≡ fields_of other db
    place db i left v vs obj got read rest zero other h e =
        sym read
        ∙ ap (λ o. o >>= λ o'. fields_of o' db)
            (sym got ∙ ap (λ n. M.get_obj n db) (omega arith) ∙ e)
    place db i left v vs obj got read rest (suc j) other h e =
        rest j other (omega arith) (ap (λ n. M.get_obj n db) (omega arith) ∙ e)

    detach_objects_from-get_obj :
        (db : Db) (i left : ℕ)
        → i + left ≤ M.size db
        → (vs : List Fields) × (detach_objects_from S M this db i left ≡ some vs)
          × ((j : ℕ) (obj : Key)
              → j < left
              → M.get_obj (i + j) db ≡ some obj
              → get_elem? vs j ≡ fields_of obj db)
    unfolding detach_objects_from
    detach_objects_from-get_obj db i zero h = ([], refl, λ j obj lt e. absurd (omega arith))
    detach_objects_from-get_obj db i (suc left) h =
        let (obj, got) = L.get_obj-bounds db i (omega arith) in
        let (v, has) = R obj db in
        let (vs, read, places) = detach_objects_from-get_obj db (suc i) left (omega arith) in
        (v ∷ vs, rw (got, has, read) refl, place db i left v vs obj got has places)

    -- A link that is in the set, and what detach copies of its object
    detach_objects-find :
        (db : Db) (obj : Key)
        → M.find obj db ≢ not_in_collection
        → (vs : List Fields) × (detach_objects S M this db ≡ some vs)
          × (get_elem? vs (M.find obj db) ≡ fields_of obj db)
    unfolding detach_objects
    detach_objects-find db obj has =
        let (vs, read, places) = detach_objects_from-get_obj db 0 (M.size db) (omega arith) in
        (
          vs,
          read,
          places (M.find obj db) obj (L.find-size db obj has)
              (ap (λ i. M.get_obj i db) (omega arith) ∙ L.get_obj-find db obj has),
        )

    -- One insertion in core's set
    insert-detach :
        (db : Db) (obj : Key) (value : Fields)
        → fields_of obj (M.insert obj db).0 ≡ some value
        → (vs : List Fields) × (M.get_obj (M.insert obj db).1.0 (M.insert obj db).0 ≡ some obj)
          × (find_object S M this obj (M.insert obj db).0
              ≡ (record { m_i = (M.insert obj db).1.0; m_parent = this }))
          × (detach_objects S M this (M.insert obj db).0 ≡ some vs)
          × (get_elem? vs (M.insert obj db).1.0 ≡ some value)
    unfolding find_object
    insert-detach db obj value e =
        let after = (M.insert obj db).0 in
        let same = L.find-insert db obj in
        let has : M.find obj after ≢ not_in_collection =
          λ lost. L.insert-small db obj (sym same ∙ lost) in
        let (vs, read, at) = detach_objects-find after obj has in
        (
          vs,
          ap (λ i. M.get_obj i after) (sym same) ∙ L.get_obj-find after obj has,
          ground (arith, same, has),
          read,
          ap (get_elem? vs) (sym same) ∙ at ∙ e,
        )

    again :
        (schema : StructSchema S) (obj : Key) (made : Db)
        → (not schema.is_embedded
            && (M.insert obj (if schema.is_embedded then made else (M.insert obj made).0)).1.1)
          ≡ false
    again schema obj made = elim (Bool-cases schema.is_embedded) [
      | inl e ↦ rw (e) refl
      | inr e ↦ rw (e) (L.insert_again made obj)
    ]

module _ (C : CoreTypes) (O : CoreFields C) (K : CoreObjects C O) (ms : List StructMember)
    (M : LinkSet (struct_store C O K ms)) where
  open K use {Db, Key}

  -- Insertion of a link changes no column of an object.
  abbrev pub KeepsObjects : Type 0
  KeepsObjects =
      (db : Db) (obj other : Key) → K.object other (M.insert obj db).0 ≡ K.object other db

  module _ (P : PrintsItsValues C) (F : IsObject C O) (puts : PutsObjects C O K)
      (L : IsLinkSet (struct_store C O K ms) M) (keeps : KeepsObjects) (this : ℕ) where
    inserted-fields :
        (schema : StructSchema (struct_store C O K ms)) (value : Struct C O ms) (db : Db)
        → IsStruct C O (values C O ms value)
        → (struct_store C O K ms).fields_of
            (make_struct (struct_store C O K ms) M this schema value db).1
            (M.insert (make_struct (struct_store C O K ms) M this schema value db).1 (
              if schema.is_embedded
              then (make_struct (struct_store C O K ms) M this schema value db).0
              else (M.insert
                  (make_struct (struct_store C O K ms) M this schema value db).1
                  (make_struct (struct_store C O K ms) M this schema value db).0).0)).0
          ≡ some value
    unfolding make_struct
    inserted-fields schema value db h = elim (Bool-cases schema.is_embedded) [
      | inl e ↦ rw (e, keeps) (struct-reads_back C O P F K puts ms value _ _ h)
      | inr e ↦ rw (e, keeps, keeps) (struct-reads_back C O P F K puts ms value _ _ h)
    ]

    -- Over a set of links and objects of core that meet their laws, for a struct of scalar
    -- members that have columns of their own, with values of their types, and with a primary key
    -- or none: insert of a pointer to the struct returns an iterator to an object, the one that
    -- find gives for that object, and the loop of detach succeeds and copies the struct in the
    -- round of that iterator's index; of a type that is not embedded insert never says that
    -- something was inserted.
    pub insert_struct-detach :
        (schema : StructSchema (struct_store C O K ms)) (value : Struct C O ms) (db : Db)
        → IsStruct C O (values C O ms value)
        → (obj : Key) × (vs : List (Struct C O ms)) × (dereference_pointer
              (struct_store C O K ms)
              M
              this
              (insert_struct (struct_store C O K ms) M this schema value db).1.0
              (insert_struct (struct_store C O K ms) M this schema value db).0
            ≡ some obj)
          × (find_object
                (struct_store C O K ms)
                M
                this
                obj
                (insert_struct (struct_store C O K ms) M this schema value db).0
              ≡ (insert_struct (struct_store C O K ms) M this schema value db).1.0)
          × (detach_objects
                (struct_store C O K ms)
                M
                this
                (insert_struct (struct_store C O K ms) M this schema value db).0
              ≡ some vs)
          × (get_elem? vs (insert_struct (struct_store C O K ms) M this schema value db).1.0.m_i
              ≡ some value)
          × (not schema.is_embedded
                && (insert_struct (struct_store C O K ms) M this schema value db).1.1
              ≡ false)
    unfolding insert_struct dereference_pointer
    insert_struct-detach schema value db h =
        let (made, obj) = make_struct (struct_store C O K ms) M this schema value db in
        let before : Db = if schema.is_embedded then made else (M.insert obj made).0 in
        let readable : IsReadable (struct_store C O K ms) M =
          λ o d. read_members-total C O ms (K.object o d) in
        let (vs, got, found, read, at) =
          insert-detach (struct_store C O K ms) M this L readable before obj value
            (inserted-fields schema value db h) in
        (
          obj,
          vs,
          got,
          found,
          read,
          at,
          again (struct_store C O K ms) M this L readable schema obj made,
        )
