-- ===== src/Observation/Tests.antt =====
-- The observers at a schema with three properties, one of which is a list.
use barq_native.Prelude.{ℕ, ◌≡◌, refl, Bool, true, false, none, some, List, [], ◌∷◌, if◌then◌else◌}
use barq_native.Prelude.Bytes.{Bytes, codes, bytes_eq}
use barq_native.Query.{ColKey}
use barq_native.Observation.{ChangeSet, Observed, Property, Wrapper}
use barq_native.Observation.ObjectChanges.{History, deliver_all, reports, deliver_all-reports}
use barq_native.Observation.Dictionaries.{
  DictionaryChangeSet, observe_dictionary, TellsAll, observe_dictionary-TellsAll,
}
use barq_native.Observation.Indexes.{indexes_to_vector, indexes_to_vector-to_vector}
use barq_native.Observation.Collections.{to_vector}

abbrev key : Bytes → ColKey
key name = if bytes_eq name (codes "age") then 1 else if bytes_eq name (codes "tags") then 2 else 3

-- An object is the pair of its age and its size.
abbrev dogs : Observed
dogs = record {
  Variant = ℕ;
  Object = ℕ × ℕ;
  Error = ℕ;
  monostate = 0;
  get_column_key = λ name. some (key name);
}

abbrev age : Property dogs
age = record {
  name = codes "age";
  is_array = false;
  is_dictionary = false;
  is_set = false;
  value = λ o. o.0;
}

abbrev tags : Property dogs
tags = record {
  name = codes "tags";
  is_array = true;
  is_dictionary = false;
  is_set = false;
  value = λ o. 7;
}

abbrev size : Property dogs
size = record {
  name = codes "size";
  is_array = false;
  is_dictionary = false;
  is_set = false;
  value = λ o. o.1;
}

abbrev dog : List (Property dogs)
dog = age ∷ tags ∷ size ∷ []

abbrev change_set : List ℕ → List ColKey → Bool → ChangeSet
change_set deleted columns' root = record {
  deletions = deleted;
  insertions = [];
  modifications = 0 ∷ [];
  columns = columns';
  collection_root_was_deleted = root;
  empty = false;
}

-- Age and size change, then the object is deleted.
abbrev history : History dogs key
history =
    (change_set [] (1 ∷ 3 ∷ []) false, ((4, 20), (5, 30)))
    ∷ (change_set (0 ∷ []) [] false, ((5, 30), (5, 30)))
    ∷ []

abbrev fresh : Wrapper dogs
fresh = record { property_names = none; old_values = none; deleted = false }

deliver_all-reports_example :
    deliver_all dogs key dog history fresh
    ≡ some (
      record { property_names = none; old_values = none; deleted = true },
      reports dogs key dog false history,
    )
deliver_all-reports_example =
    deliver_all-reports dogs key dog false history (refl, (refl, (refl, tt)))

indexes_to_vector-to_vector_example :
    indexes_to_vector false true 3 (4 ∷ 7 ∷ []) ≡ some (to_vector (4 ∷ 7 ∷ []))
indexes_to_vector-to_vector_example = indexes_to_vector-to_vector false true (4 ∷ 7 ∷ [])

-- An empty dictionary whose root is deleted, after an insertion
abbrev root_deleted : List (DictionaryChangeSet Bytes)
root_deleted =
    record {
      insertions = codes "rex" ∷ [];
      modifications = [];
      deletions = [];
      collection_root_was_deleted = false;
    }
    ∷ record {
      insertions = [];
      modifications = [];
      deletions = [];
      collection_root_was_deleted = true;
    }
    ∷ []

observe_dictionary-TellsAll_example :
    TellsAll (λ v. v) root_deleted (observe_dictionary (λ v. v) root_deleted)
observe_dictionary-TellsAll_example = observe_dictionary-TellsAll (λ v. v) root_deleted
