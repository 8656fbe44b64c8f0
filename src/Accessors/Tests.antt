-- ===== src/Accessors/Tests.antt =====
-- List columns that are lists, and the list of links of the sample store.
use barq_native.Prelude.{
  ℕ, zero, suc, ◌+◌, ◌≤◌, ◌<◌, ◌≡◌, refl, ap, ◌∙◌, true, Option, none, some, List, [], ◌∷◌, ◌++◌,
  length, ◌>>=◌, arith, Bool-cases, inl, inr, ◌==◌, false,
}
use mathlib.Core.Option
use barq_native.Managed.Links.Sample.{Database, sample_store}
use barq_native.Accessors.{
  ListColumn, LinkColumn, set_list_values, set_list_values_bool, set_list_values_mixed,
  set_list_values_optional,
}
use barq_native.Accessors.Lists.{IsListColumn, set_list_values-items}
use barq_native.Prelude.Bytes.{Bytes, bytes_eq}
use barq_native.Managed.Links.{ObjectStore}
use barq_native.Accessors.Maps.{
  DictionaryColumn, LinkEntries, set_map_pointers, entered, IsDictionary, is_some, kind_at,
  IsLinkEntries, set_map_pointers-kind,
}
use barq_native.Accessors.Pointers.{IsLinkColumn}

abbrev insert_at : ℕ → ℕ → List ℕ → Option (List ℕ)
insert_at zero v l = some (v ∷ l)
insert_at (suc i) v [] = none
insert_at (suc i) v (x ∷ l) = do l' ← insert_at i v l; some (x ∷ l')

insert_at-append :
    (v : ℕ) (xs ys : List ℕ) → insert_at (length xs) v (xs ++ ys) ≡ some (xs ++ v ∷ ys)
insert_at-append v [] ys = refl
insert_at-append v (x ∷ xs) ys = rw (insert_at-append v xs ys) refl

insert_at-within :
    (i v : ℕ) (l : List ℕ)
    → i ≤ length l
    → (l' : List ℕ) × (insert_at i v l ≡ some l') × (length l' ≡ length l + 1)
insert_at-within zero v l h = (v ∷ l, refl, omega arith)
insert_at-within (suc i) v [] h = absurd (omega arith)
insert_at-within (suc i) v (x ∷ l) h =
    let (l', e, n) = insert_at-within i v l (omega arith) in (x ∷ l', rw (e) refl, omega arith)

insert_at-beyond : (i v : ℕ) (l : List ℕ) → length l < i → insert_at i v l ≡ none
insert_at-beyond zero v l h = absurd (omega arith)
insert_at-beyond (suc i) v [] h = refl
insert_at-beyond (suc i) v (x ∷ l) h = rw (insert_at-beyond i v l (omega arith)) refl

abbrev numbers : ListColumn
numbers = record {
  Coll = List ℕ;
  Element = ℕ;
  null = 0;
  set_all = λ values l. values;
  add = λ v l. l ++ v ∷ [];
  insert = insert_at;
}

abbrev numbers-IsListColumn : IsListColumn numbers
numbers-IsListColumn = record {
  items = λ l. l;
  items-set_all = λ values l. refl;
  items-add = λ v l. refl;
  insert-within = λ v l xs ys e.
      (xs ++ v ∷ ys, ap (insert_at (length xs) v) e ∙ insert_at-append v xs ys, refl);
}

set_list_values-items_example :
    (set_list_values numbers (7 ∷ 8 ∷ []) (1 ∷ []) ≡ 7 ∷ 8 ∷ [])
    × (set_list_values_bool numbers (7 ∷ 8 ∷ []) (1 ∷ []) ≡ 1 ∷ 7 ∷ 8 ∷ [])
    × (Option.map (λ l. l) (set_list_values_mixed numbers (7 ∷ 8 ∷ []) (1 ∷ []))
        ≡ some (7 ∷ 8 ∷ 1 ∷ []))
    × (Option.map (λ l. l) (set_list_values_optional numbers (none ∷ some 9 ∷ []) (1 ∷ []))
        ≡ some (0 ∷ 9 ∷ 1 ∷ []))
set_list_values-items_example =
    set_list_values-items numbers numbers-IsListColumn (7 ∷ 8 ∷ []) (none ∷ some 9 ∷ []) (1 ∷ [])

abbrev insert_object : ℕ → Database → Option (Database × ℕ)
insert_object i db = do
  items ← insert_at i db.next db.items
  some (record db { next = suc db.next; items = items }, db.next)

abbrev links : LinkColumn sample_store
links = record {
  add = λ obj db. record db { items = db.items ++ obj ∷ [] };
  create_and_insert_linked_object = insert_object;
}

inserted :
    (i : ℕ) (db : Database)
    → i ≤ length db.items
    → (db' : Database) × (obj : ℕ) × (insert_object i db ≡ some (db', obj))
      × (length db'.items ≡ length db.items + 1)
inserted i db h =
    let (items, e, n) = insert_at-within i db.next db.items h in
    (record db { next = suc db.next; items = items }, db.next, rw (e) refl, n)

abbrev links-IsLinkColumn : IsLinkColumn sample_store links
links-IsLinkColumn = record {
  size = λ db. length db.items;
  insert-within = inserted;
  insert-beyond = λ i db h. rw (insert_at-beyond i db.next db.items h) refl;
  size-assign = λ value obj db. refl;
}

-- Dictionaries that are functions of their keys
abbrev entries : DictionaryColumn
entries = record {
  Db = Bytes → Option ℕ;
  Value = ℕ;
  insert = λ k' v db k. entered k k' v (db k);
  get = λ k db. db k;
}

entries-IsDictionary : IsDictionary entries
entries-IsDictionary = record { get-insert = λ k k' v db. refl }

-- A file that is one dictionary of links and the number of its objects
abbrev linked_store : ObjectStore
linked_store = record {
  Db = (Bytes → Option (Option ℕ)) × ℕ;
  Key = ℕ;
  Pk = ℕ;
  Fields = ℕ;
  equal_keys = ◌==◌;
  create_object_with_primary_key = λ pk db. (db, pk);
  create_object = λ db. ((db.0, suc db.1), db.1);
  create_and_set_linked_object = λ obj key db. ((db.0, suc db.1), db.1);
  linked_object = λ obj key db. none;
  set = λ obj key other db. db;
  set_null = λ obj key db. db;
  assign_fields = λ v obj db. db;
  fields_of = λ obj db. some 0;
  fields_as = λ obj db. none;
}

abbrev made_at : Bytes → Option ℕ → (Bytes → Option (Option ℕ)) → Bytes → Option (Option ℕ)
made_at k' v d k = entered k k' v (d k)

abbrev link_entries : LinkEntries linked_store
link_entries = record {
  create_and_insert_linked_object = λ k' pk db. ((made_at k' (some db.1) db.0, suc db.1), db.1);
  insert = λ k' v db. (made_at k' v db.0, db.1);
  get = λ k db. db.0 k;
}

kind_made :
    (k k' : Bytes) (obj : ℕ) (d : Bytes → Option (Option ℕ))
    → Option.map is_some (made_at k' (some obj) d k) ≡ entered k k' true (Option.map is_some (d k))
kind_made k k' obj d = elim (Bool-cases (bytes_eq k k')) [
  | inl b ↦ rw (b) refl
  | inr b ↦ rw (b) refl
]

link_entries-IsLinkEntries : IsLinkEntries linked_store link_entries
link_entries-IsLinkEntries = record {
  get-insert = λ k k' v db. refl;
  kind-create = λ k k' pk db. kind_made k k' db.1 db.0;
  kind-assign = λ k v obj db. refl;
}

abbrev pets : List (Bytes × Option ℕ)
pets = (97 ∷ [], some 5) ∷ (98 ∷ [], none) ∷ []

set_map_pointers-kind_example :
    kind_at linked_store link_entries (97 ∷ []) (
      set_map_pointers linked_store link_entries
        (record { primary_key = none; is_embedded = false })
        pets
        (λ k. none, 0))
    ≡ some true
set_map_pointers-kind_example =
    set_map_pointers-kind linked_store link_entries
      (record { primary_key = none; is_embedded = false }) link_entries-IsLinkEntries pets (97 ∷ [])
      (λ k. none, 0)
