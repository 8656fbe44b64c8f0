-- ===== src/Observation.antt =====
-- include/barq_native/observation.hpp: what a callback on an object is told of a change, and
-- property_value_for_name of include/barq_native/schema.hpp. A call of the callback is an element
-- of the list that a step returns; `none` is an exception, or a read out of bounds.
pub mod ObjectChanges
pub mod PropertyValues
pub mod Collections
pub mod Indexes
pub mod Dictionaries
mod Tests
use barq_native.Prelude.{
  ℕ, suc, Bool, true, false, ◌&&◌, ◌||◌, ◌==◌, Option, none, some, List, [], ◌∷◌, map, get_elem?,
  is_empty, ◌>>=◌, if◌then◌else◌,
}
use barq_native.Prelude.Bytes.{Bytes, bytes_eq}
use barq_native.Query.{ColKey}

-- internal::bridge::collection_change_set, as far as the callbacks read it. `empty` is what core's
-- method of that name answers, and `columns` has the keys of the map.
pub record ChangeSet : Type 0 where
  pub deletions : List ℕ
  pub insertions : List ℕ
  pub modifications : List ℕ
  pub columns : List ColKey
  pub collection_root_was_deleted : Bool
  pub empty : Bool

-- The type T that is observed: variant_t of its schema, its managed object as the database stands,
-- std::exception_ptr, and get_column_key of its table.
pub record Observed : Type 1 where
  pub Variant : Type 0
  pub Object : Type 0
  pub Error : Type 0
  pub monostate : Variant
  pub get_column_key : Bytes → Option ColKey

-- count of the map of columns
abbrev pub count : ColKey → List ColKey → Bool
count k [] = false
count k (c ∷ cs) = (k == c) || count k cs

module _ (T : Observed) where
  open T use {Variant, Object, Error, monostate, get_column_key}

  -- A property of the schema; `value` reads the member of the managed object.
  pub record Property : Type 0 where
    pub name : Bytes
    pub is_array : Bool
    pub is_dictionary : Bool
    pub is_set : Bool
    pub value : Object → Variant

  abbrev pub is_collection : Property → Bool
  is_collection p = p.is_array || (p.is_dictionary || p.is_set)

  unfoldable pub property_value_for_name : List Property → Bytes → Object → Bool → Variant
  property_value_for_name [] name object excluding_collections = monostate
  property_value_for_name (p ∷ ps) name object excluding_collections =
      let rest = property_value_for_name ps name object excluding_collections in
      if excluding_collections && is_collection p
      then monostate
      else if bytes_eq name p.name
      then p.value object
      else rest

  pub record PropertyChange : Type 0 where
    pub name : Bytes
    pub old_value : Option Variant
    pub new_value : Option Variant

  -- object_change; `object` is `none` for a null pointer
  pub record ObjectChange : Type 0 where
    pub object : Option Object
    pub is_deleted : Bool
    pub error : Option Error
    pub property_changes : List PropertyChange

  -- object_change_callback_wrapper
  pub record Wrapper : Type 0 where
    pub property_names : Option (List Bytes)
    pub old_values : Option (List Variant)
    pub deleted : Bool

  -- The loop of populate_properties: value() of an empty optional throws.
  unfoldable pub changed_names : List Property → List ColKey → Option (List Bytes)
  changed_names [] columns = some []
  changed_names (p ∷ ps) columns = do
    k ← get_column_key p.name
    rest ← changed_names ps columns
    some (if count k columns then p.name ∷ rest else rest)

  unfoldable pub populate_properties : List Property → ChangeSet → Wrapper → Option Wrapper
  populate_properties schema c w = elim w.property_names [
    | some names ↦ some w
    | none ↦ elim (is_empty c.deletions) [
      | false ↦ some (record w { deleted = true })
      | true ↦ elim (is_empty c.columns) [
        | true ↦ some w
        | false ↦ do
          properties ← changed_names schema c.columns
          let named : Wrapper = record w { property_names = some properties }
          some (if is_empty properties then w else named)
      ]
    ]
  ]

  abbrev pub values : List Property → Object → List Bytes → List Variant
  values schema object names = map (λ name. property_value_for_name schema name object true) names

  unfoldable pub read_values :
      List Property → ChangeSet → Object → Wrapper → Option (Wrapper × Option (List Variant))
  read_values schema c object w = elim c.empty [
    | true ↦ some (w, none)
    | false ↦ do
      w' ← populate_properties schema c w
      elim w'.property_names [
        | none ↦ some (w', none)
        | some names ↦ some (w', some (values schema object names))
      ]
  ]

  unfoldable pub before : List Property → ChangeSet → Object → Wrapper → Option Wrapper
  before schema c object w = do
    (w', old) ← read_values schema c object w
    some (record w' { old_values = old })

  -- The value at an index, where the vector has any.
  abbrev pub value_at : List Variant → ℕ → Option (Option Variant)
  value_at [] i = some none
  value_at (v ∷ vs) i = do x ← get_elem? (v ∷ vs) i; some (some x)

  -- The loop of forward_change from index `i` on.
  unfoldable pub changes_from :
      ℕ → List Bytes → List Variant → List Variant → Option (List PropertyChange)
  changes_from i [] old new = some []
  changes_from i (n ∷ ns) old new = do
    old_value' ← value_at old i
    new_value' ← value_at new i
    rest ← changes_from (suc i) ns old new
    some (record { name = n; old_value = old_value'; new_value = new_value' } ∷ rest)

  unfoldable pub forward_change :
      Option Object → List Bytes → List Variant → List Variant → Option Error → Option ObjectChange
  forward_change none names old new (some e) =
      some (record { object = none; is_deleted = false; error = some e; property_changes = [] })
  forward_change none names old new none =
      some (record { object = none; is_deleted = true; error = none; property_changes = [] })
  forward_change (some o) names old new e = do
    changes ← changes_from 0 names old new
    some (record { object = some o; is_deleted = false; error = none; property_changes = changes })

  abbrev pub or_none {ℓ} : {A : Type ℓ} → Option (List A) → List A
  or_none none = []
  or_none (some xs) = xs

  -- What `after` hands on, from the state that read_values leaves and what it read.
  unfoldable pub notified : Object → Wrapper → Option (List Variant) → Option (List ObjectChange)
  unfolding forward_change
  notified object w new = elim w.deleted [
    | true ↦ do x ← forward_change none [] [] [] none; some (x ∷ [])
    | false ↦ elim new [
      | none ↦ some []
      | some vs ↦ do
        names ← w.property_names
        x ← forward_change (some object) names (or_none w.old_values) vs none
        some (x ∷ [])
    ]
  ]

  unfoldable pub after :
      List Property → ChangeSet → Object → Wrapper → Option (Wrapper × List ObjectChange)
  after schema c object w = do
    (w', new) ← read_values schema c object w
    out ← notified object w' new
    some (record w' { property_names = none; old_values = none }, out)

  -- error of the wrapper
  unfoldable pub deliver_error : Error → Option ObjectChange
  unfolding forward_change
  deliver_error e = forward_change none [] [] [] (some e)
