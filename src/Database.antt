-- ===== src/Database.antt =====
-- include/barq_native/db.hpp: write transactions, the objects that add makes, and the local vector
-- indexes that are built after a file was opened.
pub mod Writes
pub mod Indexes
pub mod Declared
pub mod Reconciled
pub mod Tests
use barq_native.Prelude.{
  ℕ, ◌≡◌, Bool, true, false, not, ◌&&◌, ◌||◌, ◌==◌, is_empty, Option, none, some, List, [], ◌∷◌,
  ◌++◌, ◌>>=◌, if◌then◌else◌,
}
use barq_native.Prelude.Bytes.{Bytes}
use barq_native.Query.{ColKey}
use barq_native.Managed.Links.{ObjectStore, StructSchema}

-- What core does with an open file. The Bool is false when core throws.
pub record CoreFile : Type 1 where
  pub State : Type 0
  pub begin_transaction : State → State × Bool
  pub commit_transaction : State → State × Bool
  pub cancel_transaction : State → State × Bool
  pub is_frozen : State → Bool

-- What is done with a file and may throw: the state afterwards and, if nothing was thrown, a value.
abbrev pub Action : CoreFile → Type 0 → Type 0
Action F V = F.State → F.State × Option V

module _ (F : CoreFile) where
  -- write, whose catch also follows an exception of commit_write
  unfoldable pub write : {V : Type 0} → Action F V → Action F V
  write {V} fn s =
      let (s₁, began) = F.begin_transaction s in
      let (s₂, val) = fn s₁ in
      let (s₃, done) = F.commit_transaction s₂ in
      let committed : F.State × Option V =
        if done then (s₃, val) else ((F.cancel_transaction s₃).0, none) in
      let ended : F.State × Option V = elim val [
        | none ↦ ((F.cancel_transaction s₂).0, none)
        | some v ↦ committed
      ] in
      if began then ended else (s₁, none)

-- add, and each round of insert
unfoldable pub add : (S : ObjectStore) → StructSchema S → S.Fields → S.Db → S.Db × S.Key
add S schema v db =
    let (db', m_obj) : S.Db × S.Key = elim schema.primary_key [
      | some pk ↦ S.create_object_with_primary_key (pk v) db
      | none ↦ S.create_object db
    ] in
    (S.assign_fields v m_obj db', m_obj)

pub data Metric : Type 0 where
  inner_product l2 cosine : Metric

pub data Encoding : Type 0 where
  float32 sq8 : Encoding

-- vector_index_config
pub record IndexConfig : Type 0 where
  pub metric : Metric
  pub encoding : Encoding
  pub dimensions : ℕ
  pub m : ℕ
  pub ef_construction : ℕ
  pub ef_search : ℕ
  pub build_threads : ℕ

abbrev pub equal_metrics : Metric → Metric → Bool
equal_metrics inner_product inner_product = true
equal_metrics l2 l2 = true
equal_metrics cosine cosine = true
equal_metrics _ _ = false

abbrev pub equal_encodings : Encoding → Encoding → Bool
equal_encodings float32 float32 = true
equal_encodings sq8 sq8 = true
equal_encodings _ _ = false

-- A property of a declared type: its column, and the configuration of a vector_indexed.
pub record Property : Type 0 where
  pub col : ColKey
  pub vector : Option IndexConfig

abbrev pub Entry : Type 0
Entry = ColKey × IndexConfig

-- The test that a persisted index has another graph than the one that is declared.
unfoldable pub differs : IndexConfig → IndexConfig → Bool
differs existing cfg =
    not (equal_metrics existing.metric cfg.metric)
    || not (equal_encodings existing.encoding cfg.encoding)
    || not (existing.dimensions == cfg.dimensions)
    || not (existing.m == cfg.m)
    || not (existing.ef_construction == cfg.ef_construction)

-- collect_missing_vector_index, for a table whose indexes are given; `none` is the std::logic_error
unfoldable pub collect_missing_vector_index :
    (ColKey → Option IndexConfig) → Property → List Entry → Option (List Entry)
unfolding differs
collect_missing_vector_index table p out = elim p.vector [
  | none ↦ some out
  | some cfg ↦ elim (table p.col) [
    | none ↦ some (out ++ (p.col, cfg) ∷ [])
    | some existing ↦
        if differs existing cfg
        then none
        else if not (existing.ef_search == cfg.ef_search)
        then some (out ++ (p.col, cfg) ∷ [])
        else some out
  ]
]

-- The fold over managed<Cls>::schema.ps
unfoldable pub collect_all :
    (ColKey → Option IndexConfig) → List Property → List Entry → Option (List Entry)
unfolding collect_missing_vector_index
collect_all table [] out = some out
collect_all table (p ∷ ps) out = do
  out' ← collect_missing_vector_index table p out
  collect_all table ps out'

-- The vector indexes of the tables of a file; a table is named by its type.
pub record CoreIndexes (F : CoreFile) : Type 0 where
  pub is_valid : Bytes → F.State → Bool
  pub vector_index : Bytes → F.State → ColKey → Option IndexConfig
  pub add_vector_index : Bytes → Entry → F.State → F.State × Bool

module _ (F : CoreFile) (X : CoreIndexes F) where
  -- The loop in the transaction
  unfoldable pub add_indexes : Bytes → List Entry → Action F (Unit {0})
  add_indexes name [] s = (s, some tt)
  add_indexes name (entry ∷ entries) s =
      let (s', added) = X.add_vector_index name entry s in
      let rest = add_indexes name entries s' in if added then rest else (s', none)

  -- reconcile_vector_indexes_for
  unfoldable pub reconcile_vector_indexes_for : Bytes → List Property → Action F (Unit {0})
  unfolding add_indexes collect_all write
  reconcile_vector_indexes_for name ps d =
      let reconciled : F.State × Option (Unit {0}) =
        elim (collect_all (X.vector_index name d) ps []) [
          | none ↦ (d, none)
          | some to_create ↦
              if is_empty to_create then (d, some tt) else write F (add_indexes name to_create) d
        ] in
      if not (X.is_valid name d) then (d, some tt) else reconciled

  -- reconcile_vector_indexes, with the reconcilers of the declared types
  unfoldable pub run_reconcilers : List (Bytes × List Property) → Action F (Unit {0})
  unfolding reconcile_vector_indexes_for
  run_reconcilers [] d = (d, some tt)
  run_reconcilers ((name, ps) ∷ rest) d =
      let (d', done) = reconcile_vector_indexes_for name ps d in
      let after = run_reconcilers rest d' in elim done [ none ↦ (d', none) | some u ↦ after ]

  unfoldable pub reconcile_vector_indexes : List (Bytes × List Property) → Action F (Unit {0})
  unfolding run_reconcilers
  reconcile_vector_indexes reconcilers d =
      let run = run_reconcilers reconcilers d in if F.is_frozen d then (d, some tt) else run
