-- ===== src/Observation/Dictionaries.antt =====
-- The observer of a managed dictionary: observe of include/barq_native/managed_dictionary.hpp and
-- add_key_based_notification_callback of src/barq_native/internal/bridge/dictionary.cpp. Core gives
-- the keys of a change set as mixed values.
use barq_native.Prelude.{
  ◌≡◌, refl, ap, Bool, false, not, ◌&&◌, is_empty, List, [], ◌∷◌, map, if◌then◌else◌,
}
use barq_native.Prelude.Bytes.{Bytes}

-- DictionaryChangeSet of core
pub record DictionaryChangeSet (Mixed : Type 0) : Type 0 where
  pub insertions : List Mixed
  pub modifications : List Mixed
  pub deletions : List Mixed
  pub collection_root_was_deleted : Bool

-- dictionary_collection_change, what the handler is given
pub record DictionaryChange : Type 0 where
  pub insertions : List Bytes
  pub modifications : List Bytes
  pub deletions : List Bytes
  pub collection_root_was_deleted : Bool

-- dictionary_collection_change()
abbrev pub default_change : DictionaryChange
default_change = record {
  insertions = [];
  modifications = [];
  deletions = [];
  collection_root_was_deleted = false;
}

-- dictionary_collection_change::empty
unfoldable pub empty : DictionaryChange → Bool
empty c =
    is_empty c.deletions
    && (is_empty c.insertions && (is_empty c.modifications && not c.collection_root_was_deleted))

module _ {Mixed : Type 0} (get_string : Mixed → Bytes) where
  -- The std::transform of a list of keys, each of which is appended
  unfoldable pub transform : List Mixed → List Bytes
  transform [] = []
  transform (v ∷ rest) = get_string v ∷ transform rest

  -- operator() of the wrapper: the change that the handler is called with
  unfoldable pub notify : DictionaryChangeSet Mixed → DictionaryChange
  unfolding transform
  notify changes =
      let told : DictionaryChange = record {
        insertions = transform changes.insertions;
        modifications = transform changes.modifications;
        deletions = transform changes.deletions;
        collection_root_was_deleted = changes.collection_root_was_deleted;
      } in
      if is_empty changes.deletions
        && (is_empty changes.insertions && is_empty changes.modifications)
      then default_change
      else told

  -- The calls of the handler over a history of change sets
  unfoldable pub observe_dictionary : List (DictionaryChangeSet Mixed) → List DictionaryChange
  unfolding notify
  observe_dictionary [] = []
  observe_dictionary (changes ∷ history) = notify changes ∷ observe_dictionary history

  abbrev pub changes_keys : DictionaryChangeSet Mixed → Bool
  changes_keys c = not (is_empty c.deletions && (is_empty c.insertions && is_empty c.modifications))

  -- A change has the keys of a change set, and tells the deletion of its root when keys changed.
  abbrev pub Tells : DictionaryChangeSet Mixed → DictionaryChange → Type 0
  Tells c told =
      (told.insertions ≡ map get_string c.insertions)
      × (told.modifications ≡ map get_string c.modifications)
      × (told.deletions ≡ map get_string c.deletions)
      × (told.collection_root_was_deleted ≡ (changes_keys c && c.collection_root_was_deleted))
      × (empty told ≡ not (changes_keys c))

  -- The handler is called once for each change set, and told of it.
  abbrev pub TellsAll : List (DictionaryChangeSet Mixed) → List DictionaryChange → Type 0
  TellsAll [] [] = Unit
  TellsAll (c ∷ history) (told ∷ calls) = Tells c told × TellsAll history calls
  TellsAll _ _ = ⊥

  transform-map : (keys : List Mixed) → transform keys ≡ map get_string keys
  unfolding transform
  transform-map [] = refl
  transform-map (v ∷ rest) = ap (◌∷◌ (get_string v)) (transform-map rest)

  told_of :
      (i m d : List Mixed) (root : Bool)
      → let c : DictionaryChangeSet Mixed = record {
        insertions = i;
        modifications = m;
        deletions = d;
        collection_root_was_deleted = root;
      } in
        Tells c (notify c)
  unfolding notify empty transform
  told_of [] [] [] root = (refl, refl, refl, refl, refl)
  told_of i m (v ∷ d) root = (transform-map i, transform-map m, transform-map (v ∷ d), refl, refl)
  told_of (v ∷ i) m [] root = (transform-map (v ∷ i), transform-map m, refl, refl, refl)
  told_of [] (v ∷ m) [] root = (refl, transform-map (v ∷ m), refl, refl, refl)

  notify-Tells : (c : DictionaryChangeSet Mixed) → Tells c (notify c)
  notify-Tells c = told_of c.insertions c.modifications c.deletions c.collection_root_was_deleted

  -- Over any history of change sets, the handler of a dictionary is called once for each, with
  -- the keys that were inserted, modified and deleted, in order; the change is empty exactly when
  -- no key changed, and tells that the root was deleted exactly when it was and a key changed as
  -- well.
  pub observe_dictionary-TellsAll :
      (history : List (DictionaryChangeSet Mixed)) → TellsAll history (observe_dictionary history)
  unfolding observe_dictionary
  observe_dictionary-TellsAll [] = tt
  observe_dictionary-TellsAll (c ∷ history) = (notify-Tells c, observe_dictionary-TellsAll history)
