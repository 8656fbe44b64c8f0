-- ===== src/Accessors/Pointers.antt =====
-- The list of links that a vector of pointers to embedded objects is written to.
use barq_native.Prelude.{
  ℕ, suc, ◌+◌, ◌≤◌, ◌<◌, ◌≡◌, refl, Bool, true, false, Option, none, some, List, [], ◌∷◌, arith,
}
use barq_native.Managed.Links.{ObjectStore, StructSchema}
use barq_native.Accessors.{LinkColumn, set_pointers}

module _ {A : Type 0} where
  abbrev pub is_none : Option A → Bool
  is_none none = true
  is_none (some a) = false

  abbrev pub has_pointer : List (Option A) → Bool
  has_pointer [] = false
  has_pointer (none ∷ ps) = has_pointer ps
  has_pointer (some p ∷ ps) = true

  -- Whether a null pointer stands before one that is not null.
  abbrev pub has_gap : List (Option A) → Bool
  has_gap [] = false
  has_gap (none ∷ ps) = has_pointer ps
  has_gap (some p ∷ ps) = has_gap ps

module _ (S : ObjectStore) (M : LinkColumn S) where
  open S use {Db, Key, Fields, assign_fields}

  -- The documented behaviour: an object is inserted at an index up to the size of the list, and no
  -- further, and assigning its fields leaves the list alone.
  pub record IsLinkColumn : Type 0 where
    pub size : Db → ℕ
    pub insert-within :
        (i : ℕ) (db : Db)
        → i ≤ size db
        → (db' : Db) × (obj : Key) × (M.create_and_insert_linked_object i db ≡ some (db', obj))
          × (size db' ≡ size db + 1)
    pub insert-beyond :
        (i : ℕ) (db : Db) → size db < i → M.create_and_insert_linked_object i db ≡ none
    pub size-assign :
        (value : Fields) (obj : Key) (db : Db) → size (assign_fields value obj db) ≡ size db

  module _ (L : IsLinkColumn) (schema : StructSchema S) where
    open L use {size}

    beyond :
        (i : ℕ) (values : List (Option Fields)) (db : Db)
        → schema.is_embedded ≡ true
        → schema.primary_key ≡ none
        → size db < i
        → is_none (set_pointers S M schema i values db) ≡ has_pointer values
    unfolding set_pointers
    beyond i [] db embedded plain h = refl
    beyond i (none ∷ values) db embedded plain h =
        beyond (suc i) values db embedded plain (omega arith)
    beyond i (some v ∷ values) db embedded plain h =
        rw (plain, embedded, L.insert-beyond i db h) refl

    within :
        (i : ℕ) (values : List (Option Fields)) (db : Db)
        → schema.is_embedded ≡ true
        → schema.primary_key ≡ none
        → size db ≡ i
        → is_none (set_pointers S M schema i values db) ≡ has_gap values
    unfolding set_pointers
    within i [] db embedded plain e = refl
    within i (none ∷ values) db embedded plain e =
        beyond (suc i) values db embedded plain (omega arith)
    within i (some v ∷ values) db embedded plain e =
        let (db', obj, made, more) = L.insert-within i db (omega arith) in
        rw (plain, embedded, made)
          (within (suc i) values (assign_fields v obj db') embedded plain
            (omega (arith, L.size-assign v obj db')))

    -- Over a list of links that meets its laws, when T is embedded and has no primary key,
    -- writing a vector of pointers to a list that is empty throws exactly when a null pointer
    -- stands before one that is not null.
    set_pointers-gap :
        (values : List (Option Fields)) (db : Db)
        → schema.is_embedded ≡ true
        → schema.primary_key ≡ none
        → size db ≡ 0
        → is_none (set_pointers S M schema 0 values db) ≡ has_gap values
    set_pointers-gap values db embedded plain empty = within 0 values db embedded plain empty
