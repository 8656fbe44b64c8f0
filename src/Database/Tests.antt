-- ===== src/Database/Tests.antt =====
-- A file that is its vector indexes, of one type.
use barq_native.Prelude.{
  ℕ, ◌≡◌, refl, Bool, true, false, Bool-cases, inl, inr, none, some, List, [], ◌∷◌, if◌then◌else◌,
  arith,
}
use barq_native.Database.{
  CoreFile, Action, write, cosine, float32, IndexConfig, Property, CoreIndexes,
  reconcile_vector_indexes_for,
}
use barq_native.Database.Writes.{IsTransactional, Atomic, write-Atomic}
use barq_native.Database.Indexes.{
  Indexes, with_entry, AllDeclared, DistinctColumns, distinct_nil, distinct_cons, apart_nil,
  apart_cons,
}
use barq_native.Database.Reconciled.{KeepsIndexes, reconcile_vector_indexes_for-settled}

pub record FileState : Type 0 where
  pub opened : Bool
  pub stored : Indexes
  pub drafted : Indexes

abbrev pub current : FileState → Indexes
current s = if s.opened then s.drafted else s.stored

abbrev pub file : CoreFile
file = record {
  State = FileState;
  begin_transaction =
      λ s. if s.opened then (s, false) else (record s { opened = true; drafted = s.stored }, true);
  commit_transaction =
      λ s. if s.opened then (record s { opened = false; stored = s.drafted }, true) else (s, false);
  cancel_transaction = λ s. (record s { opened = false }, true);
  is_frozen = λ s. false;
}

abbrev pub indexes : CoreIndexes file
indexes = record {
  is_valid = λ name s. true;
  vector_index = λ name s. current s;
  add_vector_index =
      λ name entry s. (record s { drafted = with_entry 0 entry s.drafted }, s.opened);
}

abbrev file-IsTransactional : IsTransactional file
file-IsTransactional = record {
  Contents = Indexes;
  is_open = λ s. s.opened;
  contents = λ s. s.stored;
  draft = λ s. s.drafted;
  is_open-begin = λ s h. ground arith;
  contents-begin = λ s. ground arith;
  draft-begin = λ s h. ground arith;
  is_open-commit = λ s h d. rw (h) (refl, refl);
  commit-throws = λ s h d. ground arith;
  is_open-cancel = λ s h. (refl, refl);
}

begun : (s : FileState) → current (file.begin_transaction s).0 ≡ current s
begun s = elim (Bool-cases s.opened) [ inl b ↦ rw (b) refl | inr b ↦ rw (b) refl ]

committed_indexes :
    (s : FileState)
    → (file.commit_transaction s).1 ≡ true
    → current (file.commit_transaction s).0 ≡ current s
committed_indexes s h = elim (Bool-cases s.opened) [ inl b ↦ rw (b) refl | inr b ↦ ground arith ]

pub indexes-KeepsIndexes : KeepsIndexes file indexes
indexes-KeepsIndexes = record {
  threads = 0;
  vector_index-add = λ name entry s h. rw (h) refl;
  vector_index-begin = λ name s. begun s;
  vector_index-commit = λ name s h. committed_indexes s h;
}

abbrev embedding : IndexConfig
embedding = record {
  metric = cosine;
  encoding = float32;
  dimensions = 3;
  m = 16;
  ef_construction = 200;
  ef_search = 0;
  build_threads = 0;
}

-- A type with a name in column 2 and an embedding in column 4.
abbrev pub properties : List Property
properties = record { col = 2; vector = none } ∷ record { col = 4; vector = some embedding } ∷ []

-- The file has no index, or one with another search beam.
abbrev fresh : FileState
fresh = record { opened = false; stored = λ k. none; drafted = λ k. none }

abbrev pub narrow : FileState
narrow = record fresh { stored = λ k. some (record embedding { ef_search = 9 }) }

pub properties_distinct : DistinctColumns properties
properties_distinct =
    distinct_cons (apart_cons (λ e. omega arith) apart_nil) (distinct_cons apart_nil distinct_nil)

reconcile_vector_indexes_for-settled_example :
    AllDeclared
      (current (reconcile_vector_indexes_for file indexes [] properties narrow).0)
      properties
    × (reconcile_vector_indexes_for file indexes [] properties
          (reconcile_vector_indexes_for file indexes [] properties narrow).0
        ≡ ((reconcile_vector_indexes_for file indexes [] properties narrow).0, some tt))
unfolding reconcile_vector_indexes_for
reconcile_vector_indexes_for-settled_example =
    reconcile_vector_indexes_for-settled file indexes indexes-KeepsIndexes [] properties narrow
      properties_distinct refl refl

-- An action that adds an index and then throws.
abbrev fails : Action file ℕ
fails s = ((indexes.add_vector_index [] (4, embedding) s).0, none)

write-Atomic_example :
    ((write file fails fresh).0.opened ≡ false)
    × Atomic file file-IsTransactional fails fresh (write file fails fresh)
write-Atomic_example =
    write-Atomic file file-IsTransactional fails fresh
      (record { still_open = λ s h. h; uncommitted = λ s h. refl }) refl
