-- ===== src/Results/Tests.antt =====
-- Results over a table of numbers, where a query is what a number must be at least.
use barq_native.Prelude.{
  ℕ, refl, Bool, true, false, ltb, ◌==◌, Option, none, some, List, [], ◌∷◌, if◌then◌else◌,
}
use barq_native.Prelude.Bytes.{Bytes}
use barq_native.Results.{CoreResults}
use barq_native.Results.Ordering.{KeepsParts}

-- Results of a live or frozen file: whether it is frozen, the query and the sort keys. The number
-- at each index up to the query's is the index.
abbrev sample : CoreResults
sample = record {
  Results = Bool × (ℕ × List (Bytes × Bool));
  Barq = Bool;
  Query = ℕ;
  Table = Unit {0};
  Ordering = List (Bytes × Bool);
  Element = ℕ;
  Vector = ℕ;
  Mixed = ℕ;
  make = λ b q o. (b, (q, o));
  get_barq = λ r. r.0;
  get_table = λ r. tt;
  get_descriptor_ordering = λ r. r.1.1;
  size = λ r. if ltb r.1.0 9 then r.1.0 else 9;
  get = λ r i. if ltb i (if ltb r.1.0 9 then r.1.0 else 9) then some i else none;
  sort = λ ds r. (r.0, (r.1.0, ds));
  knn_search = λ k v n ef exact r. (r.0, (n, r.1.1));
  freeze = λ b r. (b, r.1);
  freeze_barq = λ b. true;
  thaw_barq = λ b. false;
  is_frozen = λ b. b;
  query = elim_text;
  get_column_key = λ t name. 3;
  has_vector_index = λ t k. k == 3;
}
  where
    elim_text : Unit {0} → Bytes → List ℕ → Option ℕ
    elim_text t [] arguments = none
    elim_text t (c ∷ text) arguments = some c

sample-KeepsParts : KeepsParts sample
sample-KeepsParts = record {
  query_table = λ q. tt;
  get_barq-make = λ b q o. refl;
  ordering-make = λ b q o. refl;
  get_table-make = λ b q o. refl;
  query_table-query = λ t text arguments q e. refl;
  get_barq-freeze = λ b r. refl;
  is_frozen-freeze = λ b. refl;
  is_frozen-thaw = λ b. refl;
}

-- The numbers below 4 of a live file, sorted by a column.
abbrev four : sample.Results
four = (false, (4, (100 ∷ [], true) ∷ []))
