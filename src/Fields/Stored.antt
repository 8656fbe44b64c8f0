-- ===== src/Fields/Stored.antt =====
-- Structs of scalar members in the objects of an open file: the reads of detach for every member,
-- in include/barq_native/link.hpp and the managed collections, and an object store whose accessors
-- are those of Fields.antt.
use barq_native.Prelude.{
  ◌≡◌, refl, Bool, Option, none, some, List, [], ◌∷◌, ◌>>=◌, Option-cases, Bool-cases, inl, inr,
}
use barq_native.Query.{ColKey}
use barq_native.Fields.{
  Field, plain, optional, primary_key, indexed, fulltext, get_optional, CoreTypes, CoreFields,
  CppField, detach, MemberValue, assign_members,
}
use barq_native.Fields.Conversions.{PrintsItsValues, deserialize-total}
use barq_native.Fields.Structs.{IsObject, IsStruct, Reads, assign_members-detach}
use barq_native.Managed.Links.{ObjectStore}

-- A member of a struct, with its column
pub record StructMember : Type 0 where
  pub key : ColKey
  pub type : Field

module _ (C : CoreTypes) (O : CoreFields C) where
  -- What core does with the objects of an open file: their scalar columns are read and written, and
  -- column_in finds the column of an object's table that has the name and type of another column.
  pub record CoreObjects : Type 1 where
    pub Db : Type 0
    pub Key : Type 0
    pub Pk : Type 0
    pub equal_keys : Key → Key → Bool
    pub create_object_with_primary_key : Pk → Db → Db × Key
    pub create_object : Db → Db × Key
    pub create_and_set_linked_object : Key → ColKey → Db → Db × Key
    pub linked_object : Key → ColKey → Db → Option Key
    pub set : Key → ColKey → Key → Db → Db
    pub set_null : Key → ColKey → Db → Db
    pub object : Key → Db → O.Obj
    pub put : Key → O.Obj → Db → Db
    pub column_in : Key → ColKey → Db → Option ColKey

  abbrev pub Struct : List StructMember → Type 0
  Struct [] = Unit
  Struct (m ∷ ms) = CppField C O m.type × Struct ms

  abbrev pub values : (ms : List StructMember) → Struct ms → List (MemberValue C O)
  values [] v = []
  values (m ∷ ms) (x, v) = record { key = m.key; type = m.type; value = x } ∷ values ms v

  -- std::apply of assign over the members: each is detached from its column.
  unfoldable pub read_members :
      (ColKey → Option ColKey) → (ms : List StructMember) → O.Obj → Option (Struct ms)
  unfolding detach
  read_members column [] obj = some tt
  read_members column (m ∷ ms) obj = do
    key ← column m.key
    x ← detach C O m.type key obj
    v ← read_members column ms obj
    some (x, v)

  module _ (K : CoreObjects) (ms : List StructMember) where
    open K use {Db, Key, object, put}

    -- The write of every member. IsStruct excludes a conversion that throws, which leaves the object
    -- here as it was.
    abbrev pub assign_struct : Struct ms → Key → Db → Db
    assign_struct v obj db = elim (assign_members C O (values ms v) (object obj db)) [
      | none ↦ db
      | some written ↦ put obj written db
    ]

    abbrev pub struct_store : ObjectStore
    struct_store = record {
      Db = Db;
      Key = Key;
      Pk = K.Pk;
      Fields = Struct ms;
      equal_keys = K.equal_keys;
      create_object_with_primary_key = K.create_object_with_primary_key;
      create_object = K.create_object;
      create_and_set_linked_object = K.create_and_set_linked_object;
      linked_object = K.linked_object;
      set = K.set;
      set_null = K.set_null;
      assign_fields = assign_struct;
      fields_of = λ obj db. read_members some ms (object obj db);
      fields_as = λ obj db. read_members (λ key. K.column_in obj key db) ms (object obj db);
    }

    -- The write of a struct to the objects of a file, for what is read of the file by `look` and
    -- that no write of scalar columns changes
    pub assign_struct-other :
        {A : Type 0} (look : Db → A)
        → ((obj : Key) (written : O.Obj) (db : Db) → look (put obj written db) ≡ look db)
        → (v : Struct ms) (obj : Key) (db : Db) → look (assign_struct v obj db) ≡ look db
    assign_struct-other look same v obj db =
        elim (Option-cases (assign_members C O (values ms v) (object obj db))) [
          | inl e ↦ rw (assign_struct, e) refl
          | inr (written, e) ↦ rw (assign_struct, e) (same obj written db)
        ]

  read_members-Reads :
      (ms : List StructMember) (v : Struct ms) (obj : O.Obj)
      → Reads C O (values ms v) obj
      → read_members some ms obj ≡ some v
  unfolding read_members
  read_members-Reads [] v obj h = refl
  read_members-Reads (m ∷ ms) (x, v) obj (read, rest) =
      rw (read, read_members-Reads ms v obj rest) refl

  -- The documented behaviour: an object has the columns that are put.
  abbrev pub PutsObjects : CoreObjects → Type 0
  PutsObjects K =
      (obj : K.Key) (written : O.Obj) (db : K.Db) → K.object obj (K.put obj written db) ≡ written

  -- A struct whose members have columns of their own, and values that their types have, is read
  -- back as it was written.
  pub struct-reads_back :
      (P : PrintsItsValues C) (L : IsObject C O) (K : CoreObjects)
      → PutsObjects K
      → (ms : List StructMember) (v : Struct ms) (obj : K.Key) (db : K.Db)
      → IsStruct C O (values ms v)
      → (struct_store K ms).fields_of obj (assign_struct K ms v obj db) ≡ some v
  struct-reads_back P L K puts ms v obj db h =
      let (after, written, reads) =
        assign_members-detach C O P L (values ms v) (K.object obj db) h in
      rw (assign_struct, written, puts obj after db) (read_members-Reads ms v after reads)

  detach-total :
      (f : Field) (key : ColKey) (obj : O.Obj)
      → (x : CppField C O f) × (detach C O f key obj ≡ some x)
  unfolding detach get_optional
  detach-total (plain t) key obj = deserialize-total C t (O.get t key obj)
  detach-total (optional t) key obj =
      let (x, e) = deserialize-total C t (O.get t key obj) in
      elim (Bool-cases (O.is_null key obj)) [
        | inl b ↦ (none, rw (b) refl)
        | inr b ↦ (some x, rw (b, e) refl)
      ]
  detach-total (primary_key f) key obj = detach-total f key obj
  detach-total (indexed f) key obj = detach-total f key obj
  detach-total (fulltext f) key obj = detach-total f key obj

  -- Every object of the struct's own table is read.
  pub read_members-total :
      (ms : List StructMember) (obj : O.Obj) → (v : Struct ms) × (read_members some ms obj ≡ some v)
  unfolding read_members
  read_members-total [] obj = (tt, refl)
  read_members-total (m ∷ ms) obj =
      let (x, read) = detach-total m.type m.key obj in
      let (v, rest) = read_members-total ms obj in ((x, v), rw (read, rest) refl)
