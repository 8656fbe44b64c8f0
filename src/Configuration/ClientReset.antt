-- ===== src/Configuration/ClientReset.antt =====
-- set_client_reset_handler of include/barq_native/internal/bridge/barq.hpp: what the callbacks do that
-- it gives to core, and freeze and thaw of src/barq_native/internal/bridge/barq.cpp.
use barq_native.Prelude.{
  ◌≡◌, refl, sym, subst, ap, ◌∙◌, true, false, Option, none, some, List, [], ◌∷◌, if◌then◌else◌,
}
use barq_native.Prelude.Bytes.{Bytes}
use barq_native.Database.{
  CoreFile, Property, CoreIndexes, reconcile_vector_indexes_for, run_reconcilers,
  reconcile_vector_indexes,
}
use barq_native.Database.Indexes.{AllDeclared, DistinctColumns}
use barq_native.Database.Reconciled.{KeepsIndexes, reconcile_vector_indexes_for-settled}

module _ (F : CoreFile) (core_freeze core_thaw : F.State → F.State) where
  -- barq::freeze, on the thread of the file
  unfoldable pub freeze : F.State → F.State
  freeze s = if F.is_frozen s then s else core_freeze s

  -- barq::thaw, over the opening of the configuration of the file with a scheduler of this thread
  unfoldable pub thaw : F.State → F.State
  thaw s = if F.is_frozen s then core_thaw s else s

  -- The callback before a client reset
  unfoldable pub before_reset : {Out : Type 0} → (F.State → Out) → F.State → Out
  unfolding freeze
  before_reset fn local_barq = fn (freeze local_barq)

  -- The end of the callback after a client reset, when the reconcilers of the remote file ran
  abbrev handed :
      {Out : Type 0} → (F.State → Out) → F.State × Option (Unit {0}) → F.State × Option Out
  handed fn (remote, none) = (remote, none)
  handed fn (remote, some u) = (remote, some (fn remote))

  -- The callback after a client reset: the remote file afterwards and, if nothing was thrown, what
  -- the handler gives
  unfoldable pub after_reset :
      {Out : Type 0} (X : CoreIndexes F)
      → List (Bytes × List Property)
      → (F.State → F.State → Out)
      → F.State
      → F.State
      → F.State × Option Out
  unfolding freeze
  after_reset X reconcilers fn local_barq remote_barq =
      handed (fn (freeze local_barq)) (reconcile_vector_indexes F X reconcilers remote_barq)

  handed-state :
      {Out : Type 0} (fn : F.State → Out) (r : F.State × Option (Unit {0})) → (handed fn r).0 ≡ r.0
  handed-state fn (remote, none) = refl
  handed-state fn (remote, some u) = refl

  handed-some :
      {Out : Type 0} (fn : F.State → Out) (r : F.State × Option (Unit {0})) (out : Out)
      → (handed fn r).1 ≡ some out
      → (r.1 ≡ some tt) × (some out ≡ some (fn r.0))
  handed-some fn (remote, none) out h = cc
  handed-some fn (remote, some u) out h = (refl, sym h)

  given_back : {Out : Type 0} (a b : Out) → some a ≡ some b → a ≡ b
  given_back a b h = cc

  module _ (X : CoreIndexes F) where
    last :
        (r : F.State × Option (Unit {0}))
        → elim r.1 [ none ↦ (r.0, none) | some u ↦ (r.0, some tt) ] ≡ r
    last (s, none) = refl
    last (s, some u) = refl

    -- The reconcilers of one type on a file that is not frozen are that of the type.
    one_type :
        (name : Bytes) (ps : List Property) (s : F.State)
        → F.is_frozen s ≡ false
        → reconcile_vector_indexes F X ((name, ps) ∷ []) s
          ≡ reconcile_vector_indexes_for F X name ps s
    unfolding reconcile_vector_indexes run_reconcilers
    one_type name ps s live =
        rw (reconcile_vector_indexes, live) (last (reconcile_vector_indexes_for F X name ps s))

    -- Over a file whose vector indexes meet their laws, when the callback after a client reset
    -- returns for one declared type, whose properties have distinct columns, and a remote file
    -- that has the type and is not frozen, the handler was given the frozen local file and the
    -- remote file, in which every property that declares a vector index has one with the metric,
    -- the encoding, the dimensions, the degree and the beams that it declares.
    pub after_reset-settled :
        {Out : Type 0} (L : KeepsIndexes F X) (name : Bytes) (ps : List Property)
        (fn : F.State → F.State → Out) (local_barq remote_barq : F.State) (out : Out)
        → DistinctColumns ps
        → X.is_valid name remote_barq ≡ true
        → F.is_frozen remote_barq ≡ false
        → (after_reset X ((name, ps) ∷ []) fn local_barq remote_barq).1 ≡ some out
        → (out
            ≡ fn (freeze local_barq) (after_reset X ((name, ps) ∷ []) fn local_barq remote_barq).0)
          × AllDeclared
              (X.vector_index name (after_reset X ((name, ps) ∷ []) fn local_barq remote_barq).0)
              ps
    unfolding after_reset
    after_reset-settled L name ps fn local_barq remote_barq out distinct valid live h =
        let fn' = fn (freeze local_barq) in
        let r = reconcile_vector_indexes F X ((name, ps) ∷ []) remote_barq in
        let e = one_type name ps remote_barq live in
        let (done, given) = handed-some fn' r out h in
        let settled =
          reconcile_vector_indexes_for-settled F X L name ps remote_barq distinct valid
            (sym (ap (λ r. r.1) e) ∙ done) in
        (
          given_back out (fn' r.0) given ∙ ap fn' (sym (handed-state fn' r)),
          subst (λ s. AllDeclared (X.vector_index name s) ps)
              (sym (handed-state fn' r ∙ ap (λ r. r.0) e)) settled.0,
        )
