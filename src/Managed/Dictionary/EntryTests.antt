-- ===== src/Managed/Dictionary/EntryTests.antt =====
-- A dictionary with one entry, at the key "a".
use barq_native.Prelude.{ℕ, zero, suc, Option, none, some, [], ◌∷◌, if◌then◌else◌}
use barq_native.Prelude.Bytes.{Bytes, bytes_eq}
use barq_native.Managed.Dictionary.Entries.{no_index, CoreEntries}

abbrev a_key : Bytes
a_key = 97 ∷ []

abbrev pair_at : ℕ → Option (Bytes × ℕ)
pair_at zero = some (a_key, 7)
pair_at (suc i) = none

abbrev one_entry : CoreEntries
one_entry = record {
  Dict = Unit;
  Value = ℕ;
  size = λ d. 1;
  get_pair = λ d i. pair_at i;
  find_any_key = λ d k. if bytes_eq k a_key then 0 else no_index;
  erase = λ k d. none;
}
