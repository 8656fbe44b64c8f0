-- ===== src/Managed/Dictionary/BoxTests.antt =====
-- A file that has one dictionary of links to dogs.
use mathlib.Core.Path.{fun_ext}
use barq_native.Prelude.{
  ℕ, suc, ◌≡◌, refl, sym, ap, ◌∙◌, false, Bool-cases, inl, inr, Option, none, some, [], ◌∷◌, arith,
}
use barq_native.Prelude.Bytes.{Bytes, bytes_eq, bytes_eq_refl, bytes_eq_sound}
use barq_native.Managed.Links.{ObjectStore, StructSchema}
use barq_native.Fields.Sample.{
  types, types-PrintsItsValues, fields, fields-IsObject, ObjectFile, objects, objects-PutsObjects,
  dog, rex, kennel,
}
use barq_native.Fields.Stored.{struct_store}
use barq_native.Accessors.Maps.{entered, set_entry}
use barq_native.Managed.Dictionary.Boxes.{
  LinkDictionary, box_assign_pointer, HasLinks, value_of, box_assign_pointer-box_dereference,
}

abbrev dogs : ObjectStore
dogs = struct_store types fields objects dog

abbrev enter : Bytes → Option ℕ → ObjectFile → ObjectFile
enter k' v db = record db { entries = λ k. entered k k' v (db.entries k) }

abbrev file_links : LinkDictionary dogs
file_links = record {
  entries = record {
    create_and_insert_linked_object =
        λ k pk db. (enter k (some db.next) (record db { next = suc db.next }), db.next);
    insert = enter;
    get = λ k db. db.entries k;
  };
  get_object = λ k db. db.entries k;
  keys = λ db. [];
}

entered-at : (k : Bytes) (x : Option ℕ) (old : Option (Option ℕ)) → entered k k x old ≡ some x
entered-at k x old = rw (bytes_eq_refl k) refl

entered_same :
    (k k' : Bytes) (x : Option ℕ) (d : Bytes → Option (Option ℕ))
    → d k' ≡ some x
    → entered k k' x (d k) ≡ d k
entered_same k k' x d h = elim (Bool-cases (bytes_eq k k')) [
  | inl b ↦ rw (b) (sym (ap d (bytes_eq_sound k k' b) ∙ h))
  | inr b ↦ rw (b) refl
]

file_links-HasLinks : HasLinks types fields objects dog file_links
file_links-HasLinks = record {
  get-create = λ k pk db. entered-at k (some db.next) (db.entries k);
  get-put = λ k obj written db. refl;
  get-insert_null = λ k db. entered-at k none (db.entries k);
  insert_same = λ k x db h.
      ap (λ d. record db { entries = d }) (fun_ext λ k'. entered_same k' k x db.entries h);
  get_object-get = λ k x db h. h;
  object-put = objects-PutsObjects;
}

abbrev no_key : StructSchema dogs
no_key = record { primary_key = none; is_embedded = false }

box_assign_pointer-box_dereference_example :
    (value_of dogs file_links
        (97 ∷ [])
        (box_assign_pointer dogs file_links no_key (97 ∷ []) (some rex) kennel)
      ≡ some (some rex))
    × (box_assign_pointer dogs file_links no_key (97 ∷ []) (some rex) kennel
        ≡ set_entry dogs file_links.entries no_key (97 ∷ []) (some rex) kennel)
box_assign_pointer-box_dereference_example =
    box_assign_pointer-box_dereference types fields objects dog file_links types-PrintsItsValues
      fields-IsObject file_links-HasLinks no_key (97 ∷ []) (some rex) kennel (ground arith)
