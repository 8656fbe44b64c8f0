-- ===== src/Observation/Collections.antt =====
-- collection_callback_wrapper of include/barq_native/observation.hpp, and results_callback_wrapper
-- of include/barq_native/results.hpp, which has the same `after` and hands on the results too.
use barq_native.Prelude.{
  ℕ, ◌≡◌, refl, sym, ap, ◌∙◌, Bool, true, false, not, ◌&&◌, ◌||◌, Option, none, some, List, [], ◌∷◌,
  ◌++◌, arith, is_empty, append_assoc, append-nil, if◌then◌else◌,
}
use mathlib.Core.Option
use barq_native.Observation.{ChangeSet}

pub record CollectionChange : Type 0 where
  pub deletions : List ℕ
  pub insertions : List ℕ
  pub modifications : List ℕ
  pub collection_root_was_deleted : Bool

-- collection_change::empty
unfoldable pub collection_change_empty : CollectionChange → Bool
collection_change_empty c =
    is_empty c.deletions
    && (is_empty c.insertions && (is_empty c.modifications && not c.collection_root_was_deleted))

-- to_vector: the loop of push_back
unfoldable pub push_all : List ℕ → List ℕ → List ℕ
push_all vector [] = vector
push_all vector (index ∷ rest) = push_all (vector ++ index ∷ []) rest

unfoldable pub to_vector : List ℕ → List ℕ
unfolding push_all
to_vector index_set = push_all [] index_set

abbrev pub no_change : CollectionChange
no_change = record {
  deletions = [];
  insertions = [];
  modifications = [];
  collection_root_was_deleted = false;
}

abbrev pub change_of : ChangeSet → CollectionChange
change_of c = record {
  deletions = to_vector c.deletions;
  insertions = to_vector c.insertions;
  modifications = to_vector c.modifications;
  collection_root_was_deleted = false;
}

-- collection_callback_wrapper::after: the flag ignoreChangesInInitialNotification, before and after,
-- and the call of the handler.
unfoldable pub after_collection : ChangeSet → Bool → Bool × Option CollectionChange
after_collection changes true = (false, some no_change)
after_collection changes false =
    if changes.empty
    then (false, some no_change)
    else if not changes.collection_root_was_deleted || not (is_empty changes.deletions)
    then (false, some (change_of changes))
    else (false, none)

module _ (Results : Type 0) where
  -- results_change; its other fields are those of collection_change
  pub record ResultsChange : Type 0 where
    pub collection : Results
    pub change : CollectionChange

  -- results_callback_wrapper::after
  unfoldable pub after_results : Results → ChangeSet → Bool → Bool × Option ResultsChange
  after_results collection' changes true =
      (false, some (record { collection = collection'; change = no_change }))
  after_results collection' changes false =
      if changes.empty
      then (false, some (record { collection = collection'; change = no_change }))
      else if not changes.collection_root_was_deleted || not (is_empty changes.deletions)
      then (false, some (record { collection = collection'; change = change_of changes }))
      else (false, none)

  -- A results observer is told what a collection observer is, with the results.
  pub after_results-after_collection :
      (results : Results) (c : ChangeSet) (initial : Bool)
      → after_results results c initial ≡ (
        (after_collection c initial).0,
        Option.map
            (λ x. record { collection = results; change = x })
            (after_collection c initial).1,
      )
  unfolding after_results after_collection
  after_results-after_collection results c true = refl
  after_results-after_collection results c false = ground arith

push_all-append : (xs ys : List ℕ) → push_all xs ys ≡ xs ++ ys
unfolding push_all
push_all-append xs [] = sym (append-nil xs)
push_all-append xs (y ∷ ys) = push_all-append (xs ++ y ∷ []) ys ∙ append_assoc xs (y ∷ []) ys

to_vector-copies : (xs : List ℕ) → to_vector xs ≡ xs
unfolding to_vector
to_vector-copies xs = push_all-append [] xs

abbrev calls : Option CollectionChange → List CollectionChange
calls none = []
calls (some x) = x ∷ []

-- The calls of the handler over a history of change sets.
abbrev pub observe : List ChangeSet → Bool → List CollectionChange
observe [] initial = []
observe (c ∷ cs) initial =
    calls (after_collection c initial).1 ++ observe cs (after_collection c initial).0

-- What a change set says to the handler after the first.
abbrev pub heard : ChangeSet → List CollectionChange
heard c =
    if c.empty
    then no_change ∷ []
    else if c.collection_root_was_deleted && is_empty c.deletions
    then []
    else record {
      deletions = c.deletions;
      insertions = c.insertions;
      modifications = c.modifications;
      collection_root_was_deleted = false;
    }
      ∷ []

abbrev pub heard_all : List ChangeSet → List CollectionChange
heard_all [] = []
heard_all (c ∷ cs) = heard c ++ heard_all cs

after_collection-heard :
    (c : ChangeSet)
    → (calls (after_collection c false).1 ≡ heard c) × ((after_collection c false).0 ≡ false)
unfolding after_collection
after_collection-heard c = ground (
  arith,
  to_vector-copies c.deletions,
  to_vector-copies c.insertions,
  to_vector-copies c.modifications,
)

observe-heard_all : (cs : List ChangeSet) → observe cs false ≡ heard_all cs
observe-heard_all [] = refl
observe-heard_all (c ∷ cs) =
    let (said, flag) = after_collection-heard c in rw (said, flag, observe-heard_all cs) refl

-- The first notification calls the handler with no change, whatever its change set has. After it,
-- each change set that is not empty is handed on index for index, but one whose root was deleted
-- and that has no deletions is not, and an empty one calls the handler with no change.
observe_initial :
    (c : ChangeSet) (cs : List ChangeSet) → observe (c ∷ cs) true ≡ no_change ∷ heard_all cs
unfolding after_collection
observe_initial c cs = ap (no_change ∷◌) (observe-heard_all cs)

-- The changes of a list that have the flag of a deleted root.
abbrev pub flagged : List CollectionChange → List CollectionChange
flagged [] = []
flagged (x ∷ xs) = if x.collection_root_was_deleted then x ∷ flagged xs else flagged xs

-- No change that the handler gets over a history says that the root of the collection was
-- deleted.
observe-flagged : (cs : List ChangeSet) (initial : Bool) → flagged (observe cs initial) ≡ []
unfolding after_collection
observe-flagged [] initial = refl
observe-flagged (c ∷ cs) true = observe-flagged cs false
observe-flagged (c ∷ cs) false = ground (arith, observe-flagged cs false)
