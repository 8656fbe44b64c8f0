-- ===== src/Observation/Indexes.antt =====
-- index_set of src/barq_native/internal/bridge/object.cpp: the iterators over the indexes of a change
-- set, and the loop of to_vector in include/barq_native/observation.hpp over them. An IndexIterator of
-- core is a position in the list of the indexes.
use barq_native.Prelude.{
  ℕ, zero, suc, ◌<◌, ◌≡◌, refl, subst, ◌∙◌, Bool, true, false, not, ◌||◌, ◌==◌, Option, none, some,
  List, [], ◌∷◌, ◌++◌, append_assoc, length, length-append, get_elem?, get_elem?-append, ◌>>=◌,
  if◌then◌else◌, arith,
}
use barq_native.Observation.Collections.{push_all, to_vector}

-- What a std::any has: an IndexIterator, or a shared pointer to another std::any
pub data Any : Type 0 where
  index_iterator : ℕ → Any
  any_pointer : Any → Any

-- m_iterator: with the generated bridge types the IndexIterator, otherwise a pointer to a std::any
pub data Iterator : Type 0 where
  embedded : ℕ → Iterator
  shared : Any → Iterator

-- The constructors and operator= from another iterator: std::make_shared<std::any>(other.m_iterator)
unfoldable pub copy : Iterator → Iterator
copy (embedded i) = embedded i
copy (shared a) = shared (any_pointer a)

-- std::any_cast<IndexSet::IndexIterator>; `none` is std::bad_any_cast, which ends the program in a
-- function that is noexcept.
unfoldable pub position : Iterator → Option ℕ
position (embedded i) = some i
position (shared (index_iterator i)) = some i
position (shared (any_pointer a)) = none

unfoldable pub dereference : List ℕ → Iterator → Option ℕ
unfolding position
dereference s it = do i ← position it; get_elem? s i

unfoldable pub different : Iterator → Iterator → Option Bool
unfolding position
different a b = do i ← position a; j ← position b; some (not (i == j))

-- operator++; `none` is also the null pointer that std::any_cast of a pointer gives
unfoldable pub pre_increment : Iterator → Option Iterator
pre_increment (embedded i) = some (embedded (suc i))
pre_increment (shared (index_iterator i)) = some (shared (index_iterator (suc i)))
pre_increment (shared (any_pointer a)) = none

abbrev make_iterator : Bool → ℕ → Iterator
make_iterator generated i = if generated then embedded i else shared (index_iterator i)

-- The return of the local variable of begin and end: `elided` says whether the compiler leaves the
-- move out, which it may.
abbrev returned : Bool → Iterator → Iterator
returned elided it = if elided then it else copy it

unfoldable pub begin : Bool → Bool → Iterator
unfolding copy
begin generated elided = returned elided (make_iterator generated 0)

unfoldable pub end : Bool → Bool → List ℕ → Iterator
unfolding copy
end generated elided s = returned elided (make_iterator generated (length s))

-- for (auto index : s.as_indexes()) vector.push_back(index), for a number of tests of the loop
unfoldable pub push_each : ℕ → List ℕ → Iterator → Iterator → List ℕ → Option (List ℕ)
unfolding different dereference pre_increment
push_each zero s it last vector = none
push_each (suc tests) s it last vector = do
  more ← different it last
  elim more [
    | false ↦ some vector
    | true ↦ do
      index ← dereference s it
      it' ← pre_increment it
      push_each tests s it' last (vector ++ index ∷ [])
  ]

unfoldable pub indexes_to_vector : Bool → Bool → ℕ → List ℕ → Option (List ℕ)
unfolding push_each begin end
indexes_to_vector generated elided tests s =
    push_each tests s (begin generated elided) (end generated elided s) []

equal_tests : (a b : ℕ) → a ≡ b → (a == b) ≡ true
equal_tests a b h = ground arith

smaller_tests : (a b : ℕ) → a < b → (a == b) ≡ false
smaller_tests a b h = ground arith

-- The loop from a position on, over iterators that have positions
module _ (make : ℕ → Iterator) (at : (i : ℕ) → position (make i) ≡ some i)
    (next : (i : ℕ) → pre_increment (make i) ≡ some (make (suc i))) where
  different-positions :
      (i j : ℕ) {b : Bool} → (i == j) ≡ b → different (make i) (make j) ≡ some (not b)
  unfolding different
  different-positions i j h = rw (at i, at j, h) refl

  dereference-position :
      (s : List ℕ) (i : ℕ) {x : ℕ} → get_elem? s i ≡ some x → dereference s (make i) ≡ some x
  unfolding dereference
  dereference-position s i h = rw (at i) h

  push_each-push_all :
      (done rest vector : List ℕ)
      → push_each
          (suc (length rest))
          (done ++ rest)
          (make (length done))
          (make (length (done ++ rest)))
          vector
        ≡ some (push_all vector rest)
  unfolding push_each push_all
  push_each-push_all done [] vector =
      let same =
        equal_tests (length done) (length (done ++ [])) (omega (arith, length-append done [])) in
      rw (different-positions (length done) (length (done ++ [])) same) refl
  push_each-push_all done (index ∷ rest) vector =
      let s = done ++ index ∷ rest in
      let before =
        smaller_tests (length done) (length s) (omega (arith, length-append done (index ∷ rest))) in
      let further : push_each (suc (length rest)) s (make (suc (length done))) (make (length s))
            (vector ++ index ∷ [])
          ≡ some (push_all (vector ++ index ∷ []) rest) =
        subst
          (λ n.
            push_each (suc (length rest)) s (make n) (make (length s)) (vector ++ index ∷ [])
            ≡ some (push_all (vector ++ index ∷ []) rest))
          (length-append done (index ∷ []) ∙ omega arith)
          (subst
            (λ d.
              push_each (suc (length rest)) d (make (length (done ++ index ∷ []))) (make (length d))
                (vector ++ index ∷ [])
              ≡ some (push_all (vector ++ index ∷ []) rest))
            (append_assoc done (index ∷ []) rest)
            (push_each-push_all (done ++ index ∷ []) rest (vector ++ index ∷ []))) in
      rw
        (
          different-positions (length done) (length s) before,
          dereference-position s (length done) (get_elem?-append done index rest),
          next (length done),
          further,
        )
        refl

-- The loop of to_vector over the iterators of a set of indexes ends after one test more than
-- there are indexes, and then has read each index once and in order, with generated bridge types,
-- or when the compiler leaves out the move of the local variable that begin and end return;
-- otherwise it ends the program.
pub indexes_to_vector-to_vector :
    (generated elided : Bool) (s : List ℕ)
    → indexes_to_vector generated elided (suc (length s)) s
      ≡ (if generated || elided then some (to_vector s) else none)
unfolding indexes_to_vector begin end copy position pre_increment to_vector push_each different
indexes_to_vector-to_vector true true s =
    push_each-push_all embedded (λ i. refl) (λ i. refl) [] s []
indexes_to_vector-to_vector true false s =
    push_each-push_all embedded (λ i. refl) (λ i. refl) [] s []
indexes_to_vector-to_vector false true s =
    push_each-push_all (λ i. shared (index_iterator i)) (λ i. refl) (λ i. refl) [] s []
indexes_to_vector-to_vector false false s = refl
