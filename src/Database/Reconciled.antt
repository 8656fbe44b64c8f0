-- ===== src/Database/Reconciled.antt =====
-- After the reconciler of a type ran, its declared vector indexes are there, and it finds nothing
-- to do.
use barq_native.Prelude.{
  ℕ, ◌≡◌, refl, sym, ap, ◌∙◌, true, Bool-cases, Option-cases, inl, inr, some, List, [], ◌∷◌,
}
use barq_native.Prelude.Bytes.{Bytes}
use barq_native.Database.{
  CoreFile, Property, Entry, collect_all, CoreIndexes, add_indexes, reconcile_vector_indexes_for,
}
use barq_native.Database.Indexes.{
  with_entry, with_entries, refused, collect_all-Collected, AllDeclared, Agrees-self,
  DistinctColumns,
}
use barq_native.Database.Declared.{Collected-AllDeclared, AllDeclared-collect_all}
use barq_native.Database.Writes.{write_returned}

module _ (F : CoreFile) (X : CoreIndexes F) where
  open F use {State, begin_transaction, commit_transaction}
  open X use {is_valid, vector_index, add_vector_index}

  -- The documented behaviour: an index that is added is there with its configuration, less
  -- build_threads, and the others as they were; the beginning and the commit of a transaction change
  -- no index.
  pub record KeepsIndexes : Type 0 where
    pub threads : ℕ
    pub vector_index-add :
        (name : Bytes) (entry : Entry) (s : State)
        → (add_vector_index name entry s).1 ≡ true
        → vector_index name (add_vector_index name entry s).0
          ≡ with_entry threads entry (vector_index name s)
    pub vector_index-begin :
        (name : Bytes) (s : State) → vector_index name (begin_transaction s).0 ≡ vector_index name s
    pub vector_index-commit :
        (name : Bytes) (s : State)
        → (commit_transaction s).1 ≡ true
        → vector_index name (commit_transaction s).0 ≡ vector_index name s

  module _ (L : KeepsIndexes) where
    add_indexes-with_entries :
        (name : Bytes) (entries : List Entry) (s : State)
        → (add_indexes F X name entries s).1 ≡ some tt
        → vector_index name (add_indexes F X name entries s).0
          ≡ with_entries L.threads entries (vector_index name s)
    unfolding add_indexes
    add_indexes-with_entries name [] s h = refl
    add_indexes-with_entries name (entry ∷ entries) s h =
        elim (Bool-cases (add_vector_index name entry s).1) [
          | inr b ↦ absurd (refused (sym (rw (add_indexes, b) refl) ∙ h))
          | inl b ↦
              rw (add_indexes, b)
                (add_indexes-with_entries name entries _ (sym (rw (add_indexes, b) refl) ∙ h)
                  ∙ ap (with_entries L.threads entries) (L.vector_index-add name entry s b))
        ]

    -- What the reconciler leaves when it returns, by what it collected.
    reconciled :
        (name : Bytes) (ps : List Property) (s : State)
        → is_valid name s ≡ true
        → (reconcile_vector_indexes_for F X name ps s).1 ≡ some tt
        → (out : List Entry) × (collect_all (vector_index name s) ps [] ≡ some out)
          × (vector_index name (reconcile_vector_indexes_for F X name ps s).0
              ≡ with_entries L.threads out (vector_index name s))
    unfolding reconcile_vector_indexes_for
    reconciled name ps s valid h = elim (Option-cases (collect_all (vector_index name s) ps [])) [
      | inl q ↦ absurd (refused (sym (rw (reconcile_vector_indexes_for, valid, q) refl) ∙ h))
      | inr ([], q) ↦ ([], q, rw (reconcile_vector_indexes_for, valid, q) refl)
      | inr (entry ∷ entries, q) ↦
          let fn = add_indexes F X name (entry ∷ entries) in
          let (acted, committed, ended) =
            write_returned F fn s tt (sym (rw (reconcile_vector_indexes_for, valid, q) refl) ∙ h) in
          (
            entry ∷ entries,
            q,
            rw (reconcile_vector_indexes_for, valid, q)
                (ap (vector_index name) ended
                  ∙ L.vector_index-commit name _ committed
                  ∙ add_indexes-with_entries name (entry ∷ entries) _ acted
                  ∙ ap (with_entries L.threads (entry ∷ entries)) (L.vector_index-begin name s)),
          )
    ]

    again :
        (name : Bytes) (ps : List Property) (s : State)
        → collect_all (vector_index name s) ps [] ≡ some []
        → reconcile_vector_indexes_for F X name ps s ≡ (s, some tt)
    unfolding reconcile_vector_indexes_for
    again name ps s settled = elim (Bool-cases (is_valid name s)) [
      | inl b ↦ rw (reconcile_vector_indexes_for, b, settled) refl
      | inr b ↦ rw (reconcile_vector_indexes_for, b) refl
    ]

    -- Over a file whose vector indexes meet their laws, when the properties of a type have
    -- distinct columns and its reconciler returns on a file that has the type, every property
    -- that declares a vector index has one in the file, with the metric, the encoding, the
    -- dimensions, the degree and the two beams that it declares, and the reconciler, run again,
    -- returns and changes nothing.
    pub reconcile_vector_indexes_for-settled :
        (name : Bytes) (ps : List Property) (s : State)
        → DistinctColumns ps
        → is_valid name s ≡ true
        → (reconcile_vector_indexes_for F X name ps s).1 ≡ some tt
        → AllDeclared (vector_index name (reconcile_vector_indexes_for F X name ps s).0) ps
          × (reconcile_vector_indexes_for F X name ps (reconcile_vector_indexes_for F X name ps s).0
              ≡ ((reconcile_vector_indexes_for F X name ps s).0, some tt))
    unfolding reconcile_vector_indexes_for
    reconcile_vector_indexes_for-settled name ps s distinct valid h =
        let (out, collected, there) = reconciled name ps s valid h in
        let (rest, e, c) = collect_all-Collected (vector_index name s) ps [] out collected in
        let s' = (reconcile_vector_indexes_for F X name ps s).0 in
        let settled : AllDeclared (vector_index name s') ps =
          rw (there, e)
            (Collected-AllDeclared L.threads (vector_index name s) distinct (Agrees-self _ ps) c) in
        (settled, again name ps s' (AllDeclared-collect_all settled))
