-- ===== src/Query/Tests.antt =====
-- The theorems on queries at concrete predicates, over the sample engine.
use barq_native.Prelude.{◌≡◌, refl, true, some, [], ◌∷◌}
use barq_native.Prelude.Int.{pos}
use barq_native.Query.{Kind-discrete, int, equal, greater, less}
use barq_native.Query.Rbool.{dictionary_has_value_for_key, Rbool, compare}
use barq_native.Query.Predicate.{Predicate, test, both, negated, where_query, holds}
use barq_native.Query.Building.{where_query-holds}
use barq_native.Query.Limits.{dictionary_test-chain, compares, run}
use barq_native.Query.Building.{ready, on_chain}
use barq_native.Query.Sample.{sample, sample-IsLawful, sample_row}

-- o.age > 4 && !(o.owner->size < 9)
abbrev elder : Predicate sample
elder =
    both (test [] int greater 2 (some (pos 4))) (negated (test (4 ∷ []) int less 7 (some (pos 9))))

where_query-holds_example :
    (q : sample.Query) × (where_query sample 1 elder ≡ some q)
    × ((row : sample.Row) → sample.matches q row ≡ holds sample 1 elder row)
where_query-holds_example = where_query-holds sample sample-IsLawful 1 elder (tt, tt)

elder_row : holds sample 1 elder sample_row ≡ true
elder_row = refl

-- An rbool on its way through link column 4.
abbrev linked : Rbool sample
linked = record (ready sample sample-IsLawful 1 (sample.all 1)) { link_chain = some (1, 4 ∷ []) }

abbrev after_link : Rbool sample
after_link =
    ready sample sample-IsLawful 1 (sample.compare_column (1, 4 ∷ []) int equal 7 (some (pos 9)))

linked-run : run sample (compares int equal 7 (some (pos 9))) linked ≡ some after_link
unfolding compare Kind-discrete
linked-run = refl

-- o.child->tags["a"] == 1, then a test of o's own column 2.
dictionary_test-chain_example :
    (dictionary_has_value_for_key sample equal 5
        (97 ∷ [])
        (pos 1)
        (on_chain sample sample-IsLawful 1 (sample.all 1) (1, 4 ∷ []))
      ≡ some (
          on_chain sample sample-IsLawful 1
            (sample.compare_key 1 5 (97 ∷ []) equal (pos 1))
            (1, 4 ∷ [])))
    × (compare sample int greater 2 (some (pos 4)) (
          on_chain sample sample-IsLawful 1
            (sample.compare_key 1 5 (97 ∷ []) equal (pos 1))
            (1, 4 ∷ []))
        ≡ some (
            ready sample sample-IsLawful 1
              (sample.compare_column (1, 4 ∷ []) int greater 2 (some (pos 4)))))
dictionary_test-chain_example =
    dictionary_test-chain sample sample-IsLawful 1 (1, 4 ∷ []) equal 5 (97 ∷ []) (pos 1) int greater
      2 (some (pos 4)) tt
