-- ===== src/Configuration/ResetTests.antt =====
-- A client reset whose remote file has an index with another search beam.
use barq_native.Prelude.{◌≡◌, refl, Bool, false, some, [], ◌∷◌}
use barq_native.Database.{reconcile_vector_indexes, run_reconcilers, reconcile_vector_indexes_for}
use barq_native.Database.Indexes.{AllDeclared}
use barq_native.Database.Tests.{
  FileState, file, indexes, indexes-KeepsIndexes, properties, narrow, properties_distinct,
}
use barq_native.Configuration.ClientReset.{after_reset, after_reset-settled}

-- The handler tells whether the remote file has an open transaction.
abbrev handler : FileState → FileState → Bool
handler local_barq remote_barq = remote_barq.opened

abbrev after : FileState
after = (after_reset file (λ s. s) (λ s. s) indexes (([], properties) ∷ []) handler narrow narrow).0

called :
    (after_reset file (λ s. s) (λ s. s) indexes (([], properties) ∷ []) handler narrow narrow).1
    ≡ some false
unfolding after_reset reconcile_vector_indexes run_reconcilers reconcile_vector_indexes_for
called = refl

after_reset-settled_example :
    (false ≡ after.opened) × AllDeclared (indexes.vector_index [] after) properties
after_reset-settled_example =
    after_reset-settled file (λ s. s) (λ s. s) indexes indexes-KeepsIndexes [] properties handler
      narrow narrow false properties_distinct refl refl called
