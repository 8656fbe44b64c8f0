-- ===== src/Managed/Set/Insertion.antt =====
-- Insertion into a managed set and search in it.
use barq_native.Prelude.{ℕ, ◌≡◌, sym, ap, ◌∙◌, false, ◌==◌, some, Bool-cases, inl, inr, arith}
use barq_native.Managed.Set.{
  CoreSet, IsSetLike, not_in_collection, equal_iterators, end, dereference, insert_value,
  find_value, insert_pointer,
}

module _ (C : CoreSet) (this : ℕ) (L : IsSetLike C) where
  open C use {Set, Element, size, get_any, insert, find}

  -- Over a core set that meets its laws, find returns end() exactly for a value that is not in
  -- the set.
  find_value-end :
      (s : Set) (v : Element)
      → equal_iterators (find_value C this v s) (end C this s) ≡ (find s v == not_in_collection)
  unfolding find_value end equal_iterators
  find_value-end s v = elim (Bool-cases (find s v == not_in_collection)) [
    | inl e ↦ ground arith
    | inr e ↦ ground (arith, L.find-size s v)
  ]

  -- Over a core set that meets its laws, insert returns an iterator to the value, the one that
  -- find then returns, and whether the value was not in the set before.
  insert_value-find_value :
      (s : Set) (v : Element)
      → ((insert_value C this v s).1.0 ≡ find_value C this v (insert_value C this v s).0)
        × (dereference C this (insert_value C this v s).0 (insert_value C this v s).1.0 ≡ some v)
        × ((insert_value C this v s).1.1 ≡ (find s v == not_in_collection))
  unfolding insert_value find_value dereference
  insert_value-find_value s v = (
    ground (arith, L.Has-insert s v, L.find-insert s v),
    ap (get_any (insert v s).0) (sym (L.find-insert s v))
        ∙ L.find-get_any (insert v s).0 v (L.Has-insert s v),
    ground (arith, L.insert-new s v, L.insert-old s v),
  )

  -- Over a core set that meets its laws, insert of a pointer to an object of a type that is not
  -- embedded leaves the set with the object, like an insertion of its key, but always reports
  -- that nothing was inserted.
  insert_pointer-reports :
      (s : Set) (key : Element)
      → ((insert_pointer C this false key s).0 ≡ (insert_value C this key s).0)
        × ((insert_pointer C this false key s).1.1 ≡ false)
  unfolding insert_pointer insert_value
  insert_pointer-reports s key = (
    L.insert-same (insert key s).0 key (L.Has-insert s key),
    L.insert-old (insert key s).0 key (L.Has-insert s key),
  )
