-- ===== src/Managed/Embeddings/Tests.antt =====
-- Columns that are lists of numbers.
use barq_native.Prelude.{ℕ, refl, List, length, get_elem?}
use barq_native.Managed.Embeddings.{CoreFloats}
use barq_native.Managed.Embeddings.Whole.{IsSequence}

abbrev columns : CoreFloats
columns = record {
  Coll = List ℕ;
  Float = ℕ;
  size = length;
  get = get_elem?;
  set_list_values = λ v l. v;
}

columns-IsSequence : IsSequence columns
columns-IsSequence = record {
  items = λ l. l;
  size-items = λ l. refl;
  get-items = λ l i. refl;
  items-set = λ v l. refl;
}
