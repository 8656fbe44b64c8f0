-- ===== src/Managed/Dictionary/Tests.antt =====
-- The box at key "a" of dictionary column 5, over the sample engine.
use barq_native.Prelude.{refl, ap, true, Option, some, [], ◌∷◌}
use barq_native.Prelude.Bytes.{Bytes}
use barq_native.Prelude.Int.{ℤ}
use barq_native.Query.{ColKey, test_ℤ}
use barq_native.Query.Sample.{sample, sample-IsLawful}
use barq_native.Managed.Sample.{or_zero}
use barq_native.Managed.Dictionary.{CoreDictionary}
use barq_native.Managed.Dictionary.Agreement.{IsKeyed}

abbrev dictionaries : CoreDictionary sample
dictionaries = record {
  Dict = Bytes → Option ℤ;
  get = λ d key. d key;
  insert = λ d key v. d;
  test_mixed = test_ℤ;
  text_of = λ v. [];
  has_text = λ a b. true;
}

abbrev dictionary_of : sample.Row → ColKey → Bytes → Option ℤ
dictionary_of row c key = some (row (c ∷ key))

sample-IsKeyed : IsKeyed sample sample-IsLawful dictionaries dictionary_of
sample-IsKeyed = record {
  matches-compare_key = λ t c key o v u row h. ap (λ x. test_ℤ o (or_zero x) v) h;
  matches-key_contains = λ t c key v u row h. refl;
  not_equal-negates = λ u v. refl;
}
