-- ===== src/Accessors/Maps.antt =====
-- accessor::set of std::set and std::map in include/barq_native/accessors.hpp: sets and dictionaries
-- are inserted into, and keep what they had.
use mathlib.Core.Option
use barq_native.Prelude.{
  ◌≡◌, refl, sym, ap, ◌∙◌, Bool, true, false, Option, none, some, List, [], ◌∷◌, if◌then◌else◌,
  Bool-cases, inl, inr,
}
use barq_native.Prelude.Bytes.{Bytes, bytes_eq}
use barq_native.Managed.Set.{CoreSet}
use barq_native.Managed.Links.{ObjectStore, StructSchema}

-- The dictionary column of one object in core, with the file that it is in
pub record DictionaryColumn : Type 1 where
  pub Db : Type 0
  pub Value : Type 0
  pub insert : Bytes → Value → Db → Db
  pub get : Bytes → Db → Option Value

-- A dictionary of links; an entry is the key of an object, or null. An object that is made at an
-- entry has a primary key or none.
pub record LinkEntries (S : ObjectStore) : Type 0 where
  pub create_and_insert_linked_object : Bytes → Option S.Pk → S.Db → S.Db × S.Key
  pub insert : Bytes → Option S.Key → S.Db → S.Db
  pub get : Bytes → S.Db → Option (Option S.Key)

-- accessor<std::set<T>>::set
unfoldable pub set_values : (C : CoreSet) → List C.Element → C.Set → C.Set
set_values C [] s = s
set_values C (v ∷ value) s = set_values C value (C.insert v s).0

-- accessor<std::set<T*>>::set, over a set of keys of the file
unfoldable pub set_pointer_set :
    (S : ObjectStore)
    → (S.Key → S.Db → S.Db)
    → StructSchema S
    → List (Option S.Fields)
    → S.Db
    → S.Db
set_pointer_set S insert schema [] db = db
set_pointer_set S insert schema (none ∷ value) db = set_pointer_set S insert schema value db
set_pointer_set S insert schema (some lnk ∷ value) db =
    let (db', m_obj) : S.Db × S.Key = elim schema.primary_key [
      | some pk ↦ S.create_object_with_primary_key (pk lnk) db
      | none ↦ S.create_object db
    ] in
    let assigned = S.assign_fields lnk m_obj db' in
    set_pointer_set S insert schema value
      (if schema.is_embedded then assigned else insert m_obj assigned)

-- accessor<std::map<std::string, T>>::set, with what is stored for a T
unfoldable pub set_map :
    {T : Type 0} (D : DictionaryColumn) → (T → D.Value) → List (Bytes × T) → D.Db → D.Db
set_map D stored [] db = db
set_map D stored ((k, v) ∷ value) db = set_map D stored value (D.insert k (stored v) db)

-- A round of accessor<std::map<std::string, T*>>::set
unfoldable pub set_entry :
    (S : ObjectStore) → LinkEntries S → StructSchema S → Bytes → Option S.Fields → S.Db → S.Db
set_entry S M schema k none db = M.insert k none db
set_entry S M schema k (some v) db =
    let (db', m_obj) =
      M.create_and_insert_linked_object k (Option.map (λ pk. pk v) schema.primary_key) db in
    M.insert k (some m_obj) (S.assign_fields v m_obj db')

unfoldable pub set_map_pointers :
    (S : ObjectStore)
    → LinkEntries S
    → StructSchema S
    → List (Bytes × Option S.Fields)
    → S.Db
    → S.Db
unfolding set_entry
set_map_pointers S M schema [] db = db
set_map_pointers S M schema ((k, v) ∷ value) db =
    set_map_pointers S M schema value (set_entry S M schema k v db)

-- What the caller's map has at a key, or else what was there
abbrev pub or_else : {A : Type 0} → Option A → Option A → Option A
or_else (some a) b = some a
or_else none b = b

abbrev pub value_at : {T : Type 0} → Bytes → List (Bytes × T) → Option T
value_at k [] = none
value_at k ((k', v) ∷ value) = or_else (value_at k value) (if bytes_eq k k' then some v else none)

or_else-or_else :
    {A B : Type 0} (f : A → B) (a b : Option A) (c : Option B)
    → or_else (Option.map f (or_else a b)) c ≡ or_else (Option.map f a) (or_else (Option.map f b) c)
or_else-or_else f none b c = refl
or_else-or_else f (some a) b c = refl

-- An insertion that puts an entry at a key and leaves the others
abbrev pub entered : {A : Type 0} → Bytes → Bytes → A → Option A → Option A
entered k k' v old = if bytes_eq k k' then some v else old

entered-or_else :
    {T A : Type 0} (f : T → A) (k k' : Bytes) (v : T) (old : Option A)
    → entered k k' (f v) old ≡ or_else (Option.map f (if bytes_eq k k' then some v else none)) old
entered-or_else f k k' v old = elim (Bool-cases (bytes_eq k k')) [
  | inl b ↦ rw (b) refl
  | inr b ↦ rw (b) refl
]

-- The documented behaviour of a dictionary: insert puts the value at the key and nowhere else.
pub record IsDictionary (D : DictionaryColumn) : Type 0 where
  pub get-insert :
      (k k' : Bytes) (v : D.Value) (db : D.Db)
      → D.get k (D.insert k' v db) ≡ entered k k' v (D.get k db)

module _ {T : Type 0} (D : DictionaryColumn) (stored : T → D.Value) (L : IsDictionary D) where
  -- Over a dictionary of core that meets its laws, writing a map leaves at every key what the map
  -- has there, stored, and at the other keys what the dictionary had.
  set_map-get :
      (value : List (Bytes × T)) (k : Bytes) (db : D.Db)
      → D.get k (set_map D stored value db)
        ≡ or_else (Option.map stored (value_at k value)) (D.get k db)
  unfolding set_map
  set_map-get [] k db = refl
  set_map-get ((k', v) ∷ value) k db =
      set_map-get value k (D.insert k' (stored v) db)
      ∙ ap (or_else (Option.map stored (value_at k value)))
          (L.get-insert k k' (stored v) db ∙ entered-or_else stored k k' v (D.get k db))
      ∙ sym (or_else-or_else stored (value_at k value) _ (D.get k db))

abbrev pub is_some : {A : Type 0} → Option A → Bool
is_some none = false
is_some (some a) = true

-- Whether there is an entry at a key, and then whether it leads to an object
abbrev pub kind_at : (S : ObjectStore) → LinkEntries S → Bytes → S.Db → Option Bool
kind_at S M k db = Option.map is_some (M.get k db)

-- The documented behaviour of a dictionary of links: an object that is made is made at its key, and
-- the fields of an object change no entry that leads to an object to one that does not.
pub record IsLinkEntries (S : ObjectStore) (M : LinkEntries S) : Type 0 where
  pub get-insert :
      (k k' : Bytes) (v : Option S.Key) (db : S.Db)
      → M.get k (M.insert k' v db) ≡ entered k k' v (M.get k db)
  pub kind-create :
      (k k' : Bytes) (pk : Option S.Pk) (db : S.Db)
      → kind_at S M k (M.create_and_insert_linked_object k' pk db).0
        ≡ entered k k' true (kind_at S M k db)
  pub kind-assign :
      (k : Bytes) (v : S.Fields) (obj : S.Key) (db : S.Db)
      → kind_at S M k (S.assign_fields v obj db) ≡ kind_at S M k db

module _ (S : ObjectStore) (M : LinkEntries S) (schema : StructSchema S)
    (L : IsLinkEntries S M) where
  kind-insert :
      (k k' : Bytes) (v : Option S.Key) (db : S.Db)
      → kind_at S M k (M.insert k' v db) ≡ entered k k' (is_some v) (kind_at S M k db)
  kind-insert k k' v db = elim (Bool-cases (bytes_eq k k')) [
    | inl b ↦ ap (Option.map is_some) (L.get-insert k k' v db) ∙ rw (b) refl
    | inr b ↦ ap (Option.map is_some) (L.get-insert k k' v db) ∙ rw (b) refl
  ]

  entered_twice :
      {A : Type 0} (k k' : Bytes) (v : A) (old : Option A)
      → entered k k' v (entered k k' v old) ≡ entered k k' v old
  entered_twice k k' v old = elim (Bool-cases (bytes_eq k k')) [
    | inl b ↦ rw (b) refl
    | inr b ↦ rw (b) refl
  ]

  set_entry-kind :
      (k k' : Bytes) (v : Option S.Fields) (db : S.Db)
      → kind_at S M k (set_entry S M schema k' v db) ≡ entered k k' (is_some v) (kind_at S M k db)
  unfolding set_entry
  set_entry-kind k k' none db = kind-insert k k' none db
  set_entry-kind k k' (some v) db =
      let (db', m_obj) =
        M.create_and_insert_linked_object k' (Option.map (λ pk. pk v) schema.primary_key) db in
      kind-insert k k' (some m_obj) (S.assign_fields v m_obj db')
      ∙ ap (entered k k' true) (
          L.kind-assign k v m_obj db'
          ∙ L.kind-create k k' (Option.map (λ pk. pk v) schema.primary_key) db)
      ∙ entered_twice k k' true (kind_at S M k db)

  -- Over a dictionary of links that meets its laws, whatever the schema of the struct, writing a
  -- map of pointers leaves at every key that the map has an entry that leads to an object exactly
  -- when the pointer is not null, and at the other keys an entry, null or not, as it was.
  pub set_map_pointers-kind :
      (value : List (Bytes × Option S.Fields)) (k : Bytes) (db : S.Db)
      → kind_at S M k (set_map_pointers S M schema value db)
        ≡ or_else (Option.map is_some (value_at k value)) (kind_at S M k db)
  unfolding set_map_pointers
  set_map_pointers-kind [] k db = refl
  set_map_pointers-kind ((k', v) ∷ value) k db =
      set_map_pointers-kind value k (set_entry S M schema k' v db)
      ∙ ap (or_else (Option.map is_some (value_at k value)))
          (set_entry-kind k k' v db ∙ entered-or_else is_some k k' v (kind_at S M k db))
      ∙ sym (or_else-or_else is_some (value_at k value) _ (kind_at S M k db))
