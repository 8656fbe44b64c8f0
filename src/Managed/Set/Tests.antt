-- ===== src/Managed/Set/Tests.antt =====
-- Managed sets of bools: core's set is the pair of whether it has false and whether it has true.
-- Sets of links of a file that has two objects, which are told apart by a bool.
use barq_native.Prelude.{
  ℕ, zero, suc, ◌+◌, ◌<◌, ◌≡◌, refl, Bool, true, false, Option, none, some, List, ◌==◌, arith,
  if◌then◌else◌, not, ◌&&◌, get_elem?,
}
use barq_native.Managed.Set.{CoreSet, Has, not_in_collection}
use barq_native.Query.{ColKey}
use barq_native.Fields.Sample.{
  Cell, number, types, types-PrintsItsValues, fields, fields-IsObject, dog, rex,
}
use barq_native.Fields.Stored.{CoreObjects, Struct, struct_store, PutsObjects}
use barq_native.Managed.Links.{ObjectStore, StructSchema}
use barq_native.Managed.Set.Pointers.{
  LinkSet, dereference_pointer, find_object, detach_objects, insert_struct,
}
use barq_native.Managed.Set.Objects.{IsLinkSet, insert_struct-detach}

abbrev Pair : Type 0
Pair = Bool × Bool

abbrev count : Bool → ℕ
count true = 1
count false = 0

abbrev element : Pair → ℕ → Option Bool
element (true, b) zero = some false
element (true, true) (suc zero) = some true
element (false, true) zero = some true
element _ _ = none

abbrev index : Pair → Bool → ℕ
index (true, b) false = 0
index (false, b) false = not_in_collection
index (a, true) true = count a
index (a, false) true = not_in_collection

abbrev with_element : Bool → Pair → Pair
with_element false (a, b) = (true, b)
with_element true (a, b) = (a, true)

abbrev bools : CoreSet
bools = record {
  Set = Pair;
  Element = Bool;
  size = λ s. count s.0 + count s.1;
  get_any = element;
  insert = λ v s. (with_element v s, (index (with_element v s) v, index s v == not_in_collection));
  remove = λ v s. if v then (s.0, false) else (false, s.1);
  find = index;
  remove_all = λ s. (false, false);
}

bounds : (s : Pair) (i : ℕ) → i < count s.0 + count s.1 → (v : Bool) × (element s i ≡ some v)
bounds (true, b) zero h = (false, refl)
bounds (true, true) (suc zero) h = (true, refl)
bounds (true, true) (suc (suc i)) h = absurd (omega arith)
bounds (true, false) (suc i) h = absurd (omega arith)
bounds (false, true) zero h = (true, refl)
bounds (false, true) (suc i) h = absurd (omega arith)
bounds (false, false) i h = absurd (omega arith)

found : (s : Pair) (v : Bool) → Has bools s v → element s (index s v) ≡ some v
found (true, b) false h = refl
found (true, true) true h = refl
found (false, true) true h = refl
found (false, b) false h = absurd (h refl)
found (a, false) true h = absurd (h refl)

below : (s : Pair) (v : Bool) → Has bools s v → index s v < count s.0 + count s.1
below (true, true) false h = omega arith
below (true, false) false h = omega arith
below (true, true) true h = omega arith
below (false, true) true h = omega arith
below (false, b) false h = absurd (h refl)
below (a, false) true h = absurd (h refl)

small : (s : Pair) → count s.0 + count s.1 < not_in_collection
small (true, true) = omega arith
small (true, false) = omega arith
small (false, true) = omega arith
small (false, false) = omega arith

has : (s : Pair) (v : Bool) → Has bools (with_element v s) v
has (a, b) false = λ e. omega arith
has (true, b) true = λ e. omega arith
has (false, b) true = λ e. omega arith

record TwoObjects : Type 0 where
  links : Pair
  objects : Bool → ColKey → Cell

abbrev written : Bool → (ColKey → Cell) → Bool → (ColKey → Cell) → ColKey → Cell
written true new true old = new
written false new false old = new
written _ new _ old = old

-- An object is made with the primary key that is given, or is the object of `true`.
abbrev two_objects : CoreObjects types fields
two_objects = record {
  Db = TwoObjects;
  Key = Bool;
  Pk = Bool;
  equal_keys = λ a b. if a then b else not b;
  create_object_with_primary_key = λ pk db. (db, pk);
  create_object = λ db. (db, true);
  create_and_set_linked_object = λ obj key db. (db, true);
  linked_object = λ obj key db. none;
  set = λ obj key other db. db;
  set_null = λ obj key db. db;
  object = λ obj db. db.objects obj;
  put = λ obj new db. record db { objects = λ o. written obj new o (db.objects o) };
  column_in = λ obj key db. some key;
}

abbrev dogs : ObjectStore
dogs = struct_store types fields two_objects dog

abbrev two_links : LinkSet dogs
two_links = record {
  size = λ db. count db.links.0 + count db.links.1;
  get_obj = λ i db. element db.links i;
  insert = λ obj db. (
    record db { links = with_element obj db.links },
    (index (with_element obj db.links) obj, index db.links obj == not_in_collection),
  );
  remove = λ obj db. record db { links = if obj then (db.links.0, false) else (false, db.links.1) };
  find = λ obj db. index db.links obj;
  remove_all = λ db. record db { links = (false, false) };
}

written-same : PutsObjects types fields two_objects
written-same true new db = refl
written-same false new db = refl

two_links-IsLinkSet : IsLinkSet dogs two_links
two_links-IsLinkSet = record {
  size_small = λ db. small db.links;
  get_obj-bounds = λ db. bounds db.links;
  get_obj-find = λ db obj h. found db.links obj h;
  find-size = λ db obj h. below db.links obj h;
  find-insert = λ db obj. refl;
  insert-small = λ db obj. has db.links obj;
  insert_again = λ db obj. ground (arith, has db.links obj);
}

abbrev keyed_dog : StructSchema dogs
keyed_dog = record { primary_key = some λ v. v.0 == 4; is_embedded = false }

-- The set of the object of `true`
abbrev one_link : TwoObjects
one_link = record { links = (false, true); objects = λ obj k. number 7 }

-- The struct is written to the object of `false`.
insert_struct-detach_example :
    (obj : Bool) × (vs : List (Struct types fields dog)) × (dereference_pointer dogs two_links 77
        (insert_struct dogs two_links 77 keyed_dog rex one_link).1.0
        (insert_struct dogs two_links 77 keyed_dog rex one_link).0
      ≡ some obj)
    × (find_object dogs two_links 77 obj (insert_struct dogs two_links 77 keyed_dog rex one_link).0
        ≡ (insert_struct dogs two_links 77 keyed_dog rex one_link).1.0)
    × (detach_objects dogs two_links 77 (insert_struct dogs two_links 77 keyed_dog rex one_link).0
        ≡ some vs)
    × (get_elem? vs (insert_struct dogs two_links 77 keyed_dog rex one_link).1.0.m_i ≡ some rex)
    × (not false && (insert_struct dogs two_links 77 keyed_dog rex one_link).1.1 ≡ false)
insert_struct-detach_example =
    insert_struct-detach types fields two_objects dog two_links types-PrintsItsValues
      fields-IsObject written-same two_links-IsLinkSet (λ db obj other. refl) 77 keyed_dog rex
      one_link (ground arith)
