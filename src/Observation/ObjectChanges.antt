-- ===== src/Observation/ObjectChanges.antt =====
-- What an observer of an object is told, over any history of notifications.
use barq_native.Prelude.{
  ◌>>=◌, ◌≡◌, refl, Bool, true, false, not, ◌&&◌, ◌||◌, Option, none, some, List, [], ◌∷◌, ◌++◌,
  map, arith, is_empty, if◌then◌else◌, Bool-cases, inl, inr, length, get_elem?-append,
  length-append, append_assoc, suc, ℕ,
}
use barq_native.Prelude.Bytes.{Bytes}
use barq_native.Query.{ColKey}
use barq_native.Observation.{
  ChangeSet, Observed, count, Property, property_value_for_name, PropertyChange, ObjectChange,
  Wrapper, changed_names, populate_properties, read_values, before, value_at, changes_from,
  forward_change, notified, after,
}

module _ (T : Observed) (key : Bytes → ColKey) where
  open T use {Variant, Object, monostate, get_column_key}

  -- The table has a column for each property, with the key `key` gives.
  abbrev pub IsKeyed : List (Property T) → Type 0
  IsKeyed [] = Unit
  IsKeyed (p ∷ ps) = (get_column_key p.name ≡ some (key p.name)) × IsKeyed ps

  -- The names of the properties whose column changed, in the order of the schema.
  abbrev pub names_in : List (Property T) → List ColKey → List Bytes
  names_in [] columns = []
  names_in (p ∷ ps) columns =
      if count (key p.name) columns then p.name ∷ names_in ps columns else names_in ps columns

  changed_names-names_in :
      (ps : List (Property T)) (columns : List ColKey)
      → IsKeyed ps
      → changed_names T ps columns ≡ some (names_in ps columns)
  unfolding changed_names
  changed_names-names_in [] columns k = refl
  changed_names-names_in (p ∷ ps) columns (k, ks) =
      rw (k, changed_names-names_in ps columns ks) refl

  names_in-none : (ps : List (Property T)) → names_in ps [] ≡ []
  names_in-none [] = refl
  names_in-none (p ∷ ps) = names_in-none ps

  abbrev nonempty_names : List Bytes → Option (List Bytes)
  nonempty_names [] = none
  nonempty_names (n ∷ ns) = some (n ∷ ns)

  -- What populate_properties finds in a change set.
  abbrev found : List (Property T) → ChangeSet → Option (List Bytes)
  found ps c = if is_empty c.deletions then nonempty_names (names_in ps c.columns) else none

  abbrev waiting : Option (List Variant) → Bool → Wrapper T
  waiting old d = record { property_names = none; old_values = old; deleted = d }

  -- Whether an object counts as deleted after a change set.
  abbrev pub ended : Bool → ChangeSet → Bool
  ended d c = d || (not c.empty && not (is_empty c.deletions))

  populate_properties-found :
      (ps : List (Property T)) (c : ChangeSet) (old : Option (List Variant)) (d : Bool)
      → IsKeyed ps
      → populate_properties T ps c (waiting old d)
        ≡ some (record {
          property_names = found ps c;
          old_values = old;
          deleted = d || not (is_empty c.deletions);
        })
  unfolding populate_properties
  populate_properties-found ps c old d k =
      ground (arith, changed_names-names_in ps c.columns k, names_in-none ps)

  value_at-append :
      (xs : List Variant) (y : Variant) (ys : List Variant) (i : ℕ)
      → i ≡ length xs
      → value_at T (xs ++ y ∷ ys) i ≡ some (some y)
  value_at-append [] y ys i e = rw e refl
  value_at-append (x ∷ xs) y ys i e = rw (e, get_elem?-append xs y ys) refl

  module _ (f g : Bytes → Variant) where
    abbrev change_of : Bytes → PropertyChange T
    change_of n = record { name = n; old_value = some (f n); new_value = some (g n) }

    -- forward_change pairs each name with the two values read for it.
    changes_from-map :
        (xs ys : List Variant) (names : List Bytes) (i : ℕ)
        → i ≡ length xs
        → i ≡ length ys
        → changes_from T i names (xs ++ map f names) (ys ++ map g names)
          ≡ some (map change_of names)
    unfolding changes_from
    changes_from-map xs ys [] i hx hy = refl
    changes_from-map xs ys (n ∷ ns) i hx hy =
        let later : changes_from T (suc i) ns (xs ++ f n ∷ map f ns) (ys ++ g n ∷ map g ns)
            ≡ some (map change_of ns) =
          rw (← append_assoc xs (f n ∷ []) (map f ns), ← append_assoc ys (g n ∷ []) (map g ns))
            (changes_from-map (xs ++ f n ∷ []) (ys ++ g n ∷ []) ns (suc i)
              (omega (arith, length-append xs (f n ∷ [])))
              (omega (arith, length-append ys (g n ∷ [])))) in
        rw
          (
            value_at-append xs (f n) (map f ns) i hx,
            value_at-append ys (g n) (map g ns) i hy,
            later,
          )
          refl

  abbrev idle : Bool → Wrapper T
  idle d = waiting none d

  -- A notification: core calls `before` with the object as it was, and `after` as it is.
  abbrev pub deliver :
      List (Property T)
      → ChangeSet
      → Object
      → Object
      → Wrapper T
      → Option (Wrapper T × List (ObjectChange T))
  deliver ps c old new w = do w' ← before T ps c old w; after T ps c new w'

  abbrev pub deletion : ObjectChange T
  deletion = record { object = none; is_deleted = true; error = none; property_changes = [] }

  abbrev told : List (Property T) → Object → Object → List Bytes → List (ObjectChange T)
  told ps old new [] = []
  told ps old new (n ∷ ns) =
      record {
        object = some new;
        is_deleted = false;
        error = none;
        property_changes =
            map
              (change_of (λ m. property_value_for_name T ps m old true)
                (λ m. property_value_for_name T ps m new true))
              (n ∷ ns);
      }
      ∷ []

  -- What an observer is to be told of one notification.
  abbrev pub report : List (Property T) → Bool → ChangeSet → Object → Object → List (ObjectChange T)
  report ps d c old new =
      if ended d c
      then deletion ∷ []
      else if c.empty
      then []
      else told ps old new (names_in ps c.columns)

  -- With a change set that deletes nothing, by the names that populate_properties finds.
  deliver-quiet :
      (ps : List (Property T)) (d : Bool) (c : ChangeSet) (old new : Object)
      → IsKeyed ps
      → c.empty ≡ false
      → is_empty c.deletions ≡ true
      → (names : List Bytes) → names_in ps c.columns ≡ names
      → deliver ps c old new (idle d) ≡ some (idle (ended d c), report ps d c old new)
  unfolding before after read_values populate_properties notified forward_change
  deliver-quiet ps d c old new k e n [] q = ground (arith, populate_properties-found ps c none d k)
  deliver-quiet ps d c old new k e n (m ∷ ms) q = ground (
    arith,
    populate_properties-found ps c none d k,
    changes_from-map (λ x. property_value_for_name T ps x old true)
        (λ x. property_value_for_name T ps x new true) [] [] (m ∷ ms) 0 refl refl,
  )

  deliver-report :
      (ps : List (Property T)) (d : Bool) (c : ChangeSet) (old new : Object)
      → IsKeyed ps
      → deliver ps c old new (idle d) ≡ some (idle (ended d c), report ps d c old new)
  unfolding before after read_values notified forward_change
  deliver-report ps d c old new k = elim (Bool-cases c.empty) [
    | inl e ↦ ground arith
    | inr e ↦ elim (Bool-cases (is_empty c.deletions)) [
      | inl n ↦ deliver-quiet ps d c old new k e n (names_in ps c.columns) refl
      | inr n ↦ ground (
        arith,
        populate_properties-found ps c none d k,
        populate_properties-found ps c none true k,
      )
    ]
  ]

  -- A history: the change set of each notification, with the object before and after it.
  abbrev pub History : Type 0
  History = List (ChangeSet × (Object × Object))

  abbrev pub deliver_all :
      List (Property T) → History → Wrapper T → Option (Wrapper T × List (ObjectChange T))
  deliver_all ps [] w = some (w, [])
  deliver_all ps (x ∷ xs) w = do
    (w', out) ← deliver ps x.0 x.1.0 x.1.1 w
    (w'', rest) ← deliver_all ps xs w'
    some (w'', out ++ rest)

  abbrev pub reports : List (Property T) → Bool → History → List (ObjectChange T)
  reports ps d [] = []
  reports ps d (x ∷ xs) = report ps d x.0 x.1.0 x.1.1 ++ reports ps (ended d x.0) xs

  abbrev ended_by : Bool → History → Bool
  ended_by d [] = d
  ended_by d (x ∷ xs) = ended_by (ended d x.0) xs

  -- From a wrapper that waits, over any history of notifications, the calls of the callback are
  -- the reports of the history: nothing for an empty change set or one in which no column of the
  -- schema changed, else one change for each property whose column changed, in the order of the
  -- schema, with the value that property_value_for_name gives before and after, and a deletion
  -- for each notification from the first that deletes on. No read is out of bounds, provided that
  -- the table has a column for each property of the schema.
  pub deliver_all-reports :
      (ps : List (Property T)) (d : Bool) (xs : History)
      → IsKeyed ps
      → deliver_all ps xs (idle d) ≡ some (idle (ended_by d xs), reports ps d xs)
  deliver_all-reports ps d [] k = refl
  deliver_all-reports ps d (x ∷ xs) k =
      rw (deliver-report ps d x.0 x.1.0 x.1.1 k, deliver_all-reports ps (ended d x.0) xs k) refl
