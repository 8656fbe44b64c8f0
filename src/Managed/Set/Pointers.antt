-- ===== src/Managed/Set/Pointers.antt =====
-- include/barq_native/managed_set.hpp, sets of pointers: the objects of an open file with one of
-- its sets of links.
use barq_native.Prelude.{
  ℕ, zero, suc, Bool, ◌==◌, Option, none, some, List, [], ◌∷◌, ◌>>=◌, if◌then◌else◌,
}
use barq_native.Managed.Links.{ObjectStore, StructSchema}
use barq_native.Managed.Set.{Iterator, not_in_collection}

-- What core does with a set of links. `insert` also gives the index of the link and whether it is
-- new, and get_obj throws out of range.
pub record LinkSet (S : ObjectStore) : Type 0 where
  pub size : S.Db → ℕ
  pub get_obj : ℕ → S.Db → Option S.Key
  pub insert : S.Key → S.Db → S.Db × (ℕ × Bool)
  pub remove : S.Key → S.Db → S.Db
  pub find : S.Key → S.Db → ℕ
  pub remove_all : S.Db → S.Db

module _ (S : ObjectStore) (M : LinkSet S) (this : ℕ) where
  open S use {
    Db, Key, Pk, Fields, create_object_with_primary_key, create_object, assign_fields, fields_of,
  }

  unfoldable pub begin_of_objects : Db → Iterator
  begin_of_objects db = record { m_i = 0; m_parent = this }

  unfoldable pub end_of_objects : Db → Iterator
  end_of_objects db = record { m_i = M.size db; m_parent = this }

  -- iterator::operator*; `none` is the exception that ends the program in a noexcept function
  unfoldable pub dereference_pointer : Iterator → Db → Option Key
  dereference_pointer it db = M.get_obj it.m_i db

  -- The loop of detach, from index `i` on; the std::set that it fills orders the pointers to the
  -- structs by their addresses.
  unfoldable pub detach_objects_from : Db → ℕ → ℕ → Option (List Fields)
  detach_objects_from db i zero = some []
  detach_objects_from db i (suc left) = do
    obj ← M.get_obj i db
    v ← fields_of obj db
    rest ← detach_objects_from db (suc i) left
    some (v ∷ rest)

  unfoldable pub detach_objects : Db → Option (List Fields)
  unfolding detach_objects_from
  detach_objects db = detach_objects_from db 0 (M.size db)

  -- What both insertions of a T* begin with: an object with the fields of the struct
  unfoldable pub make_struct : StructSchema S → Fields → Db → Db × Key
  make_struct schema value db =
      let (db', obj) : Db × Key = elim schema.primary_key [
        | some pk ↦ create_object_with_primary_key (pk value) db
        | none ↦ create_object db
      ] in
      (assign_fields value obj db', obj)

  -- insert(T*)
  unfoldable pub insert_struct : StructSchema S → Fields → Db → Db × (Iterator × Bool)
  insert_struct schema value db =
      let (made, obj) = make_struct schema value db in
      let before : Db = if schema.is_embedded then made else (M.insert obj made).0 in
      let (after, res) = M.insert obj before in
      (after, (record { m_i = res.0; m_parent = this }, res.1))

  -- insert(const iterator&, T*)
  unfoldable pub insert_struct_hint : StructSchema S → Iterator → Fields → Db → Db × Iterator
  insert_struct_hint schema hint value db =
      let (made, obj) = make_struct schema value db in
      let (after, res) = M.insert obj made in (after, record { m_i = res.0; m_parent = this })

  -- insert(const managed<T>&)
  unfoldable pub insert_managed : Key → Db → Db × (Iterator × Bool)
  insert_managed obj db =
      let (db', res) = M.insert obj db in (db', (record { m_i = res.0; m_parent = this }, res.1))

  -- insert(const iterator&, const managed<T>&)
  unfoldable pub insert_managed_hint : Iterator → Key → Db → Db × Iterator
  insert_managed_hint hint obj db =
      let (db', res) = M.insert obj db in (db', record { m_i = res.0; m_parent = this })

  -- find(const managed<T>&), and find(const managed<T*>&) of the object that the field belongs to
  unfoldable pub find_object : Key → Db → Iterator
  unfolding end_of_objects
  find_object obj db =
      if M.find obj db == not_in_collection
      then end_of_objects db
      else record { m_i = M.find obj db; m_parent = this }

  unfoldable pub erase_object : Iterator → Db → Option Db
  unfolding dereference_pointer
  erase_object it db = do obj ← dereference_pointer it db; some (M.remove obj db)

  unfoldable pub clear_objects : Db → Db
  clear_objects db = M.remove_all db
