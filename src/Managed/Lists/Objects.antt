-- ===== src/Managed/Lists/Objects.antt =====
-- include/barq_native/managed_list.hpp, lists of objects: the objects of an open file with one of
-- its lists of links.
use barq_native.Prelude.{
  ℕ, zero, suc, ◌+◌, ◌-◌, ◌%◌, ◌^◌, ◌≡◌, refl, ap, ◌∙◌, true, Option, none, some, ◌>>=◌, List, [],
  ◌∷◌, ◌++◌, Option-cases, Bool-cases, inl, inr, if◌then◌else◌,
}
use mathlib.Core.Option
use barq_native.Managed.Links.{ObjectStore, StructSchema}

-- What core does with a list of links. get and remove throw out of range.
pub record LinkList (S : ObjectStore) : Type 0 where
  pub size : S.Db → ℕ
  pub get : ℕ → S.Db → Option S.Key
  pub add : S.Key → S.Db → S.Db
  pub add_embedded : S.Db → S.Db × S.Key
  pub remove : ℕ → S.Db → Option S.Db
  pub remove_all : S.Db → S.Db
  pub find : S.Key → S.Db → ℕ

module _ (S : ObjectStore) (M : LinkList S) where
  open S use {
    Db, Key, Pk, Fields, create_object_with_primary_key, create_object, assign_fields, fields_of,
  }

  -- push_back(T*)
  unfoldable pub push_back_pointer : StructSchema S → Fields → Db → Db
  push_back_pointer schema value db =
      let (db', obj) : Db × Key = elim schema.primary_key [
        | some pk ↦ create_object_with_primary_key (pk value) db
        | none ↦ if schema.is_embedded then M.add_embedded db else create_object db
      ] in
      let assigned = assign_fields value obj db' in
      if schema.is_embedded then assigned else M.add obj assigned

  -- push_back(const managed<T>&); `none` is the std::logic_error
  unfoldable pub push_back_object : StructSchema S → Key → Db → Option Db
  push_back_object schema value db = if schema.is_embedded then none else some (M.add value db)

  -- push_back(const managed<T*>&), where `value` is the object that the field belongs to
  unfoldable pub push_back_link : StructSchema S → Key → Db → Option Db
  push_back_link schema value db = if schema.is_embedded then none else some (M.add value db)

  unfoldable pub pop_back : Db → Option Db
  pop_back db = M.remove ((M.size db + (2 ^ 64 - 1)) % 2 ^ 64) db

  -- find(const managed<T>&)
  unfoldable pub find : Key → Db → ℕ
  find a db = M.find a db

  -- The loop of detach, from index `i` on.
  unfoldable pub detach_from : Db → ℕ → ℕ → Option (List Fields)
  detach_from db i zero = some []
  detach_from db i (suc left) = do
    obj ← M.get i db
    v ← fields_of obj db
    rest ← detach_from db (suc i) left
    some (v ∷ rest)

  unfoldable pub detach : Db → Option (List Fields)
  unfolding detach_from
  detach db = detach_from db 0 (M.size db)

  -- The documented behaviour of the calls that push_back makes.
  pub record IsLinkList : Type 0 where
    pub items : Db → List Key
    pub items-add : (obj : Key) (db : Db) → items (M.add obj db) ≡ items db ++ obj ∷ []
    pub items-add_embedded :
        (db : Db) → items (M.add_embedded db).0 ≡ items db ++ (M.add_embedded db).1 ∷ []
    pub items-create : (db : Db) → items (create_object db).0 ≡ items db
    pub items-create_with_primary_key :
        (pk : Pk) (db : Db) → items (create_object_with_primary_key pk db).0 ≡ items db
    pub items-assign :
        (value : Fields) (obj : Key) (db : Db) → items (assign_fields value obj db) ≡ items db
    pub fields_of-add :
        (obj other : Key) (db : Db) → fields_of obj (M.add other db) ≡ fields_of obj db

  module _ (L : IsLinkList) where
    open L use {items}

    -- The list of `db'` is that of `db` and one object more, to which the fields were written.
    pub record Appends (value : Fields) (db db' : Db) : Type 0 where
      pub object : Key
      pub list : items db' ≡ items db ++ object ∷ []
      pub has :
          (made : Db) × (fields_of object db' ≡ fields_of object (assign_fields value object made))

    added :
        (value : Fields) (obj : Key) (db made : Db)
        → items made ≡ items db
        → Appends value db (M.add obj (assign_fields value obj made))
    added value obj db made e = record {
      object = obj;
      list = L.items-add obj _ ∙ ap (λ os. os ++ obj ∷ []) (L.items-assign value obj made ∙ e);
      has = (made, L.fields_of-add obj obj _);
    }

    -- Over a list of links that meets its laws, when a type that is embedded has no primary key,
    -- push_back of a pointer to a value appends one object, to which the value's fields are written. On an
    -- object, push_back appends it, and throws exactly when its type is embedded.
    push_back-Appends :
        (schema : StructSchema S) (value : Fields) (obj : Key) (db : Db)
        → (schema.is_embedded ≡ true → schema.primary_key ≡ none)
        → Appends value db (push_back_pointer schema value db)
          × (Option.map items (push_back_object schema obj db)
              ≡ (if schema.is_embedded then none else some (items db ++ obj ∷ [])))
    unfolding push_back_pointer push_back_object
    push_back-Appends schema value obj db plain = elim (Bool-cases schema.is_embedded) [
      | inl b ↦
          rw (plain b, b)
            (
              record {
                object = (M.add_embedded db).1;
                list = L.items-assign value _ _ ∙ L.items-add_embedded db;
                has = ((M.add_embedded db).0, refl);
              },
              refl,
            )
      | inr b ↦ (
        elim (Option-cases schema.primary_key) [
          | inl e ↦ rw (e, b) (added value _ db _ (L.items-create db))
          | inr (pk, e) ↦
              rw (e, b) (added value _ db _ (L.items-create_with_primary_key (pk value) db))
        ],
        rw (b) (ap some (L.items-add obj db)),
      )
    ]
