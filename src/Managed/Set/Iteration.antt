-- ===== src/Managed/Set/Iteration.antt =====
-- Going through a managed set with an iterator.
use barq_native.Prelude.{
  ℕ, zero, suc, ◌<◌, ◌≡◌, refl, Bool, true, false, Option, none, some, List, [], ◌∷◌, length,
  if◌then◌else◌, arith,
}
use barq_native.Managed.Set.{
  CoreSet, IsSetLike, Iterator, different_iterators, pre_increment, post_increment, begin, end,
  dereference, detach_from,
}

module _ (C : CoreSet) (this : ℕ) where
  open C use {Set, Element, size, get_any}

  -- What a loop `for (it = begin(); it != end(); ...) *it` has come to.
  pub data Visit : Type 0 where
    finished : List Element → Visit
    threw unfinished : Visit

  abbrev pub visited : Option Element → Visit → Visit
  visited none r = threw
  visited (some v) (finished vs) = finished (v ∷ vs)
  visited (some v) r = r

  -- The loop, for at most `rounds` tests of its condition.
  abbrev pub visit : (Iterator → Iterator) → ℕ → Set → Iterator → Visit
  visit advance zero s it = unfinished
  visit advance (suc rounds) s it =
      let rest = visit advance rounds s (advance it) in
      if different_iterators it (end C this s)
      then visited (dereference C this s it) rest
      else finished []

  abbrev pub is_finished : Visit → Bool
  is_finished (finished vs) = true
  is_finished _ = false

  abbrev at_index : ℕ → Iterator
  at_index i = record { m_i = i; m_parent = this }

  visited-unfinished :
      (v : Option Element) (r : Visit) → is_finished r ≡ false → is_finished (visited v r) ≡ false
  visited-unfinished none r h = refl
  visited-unfinished (some v) (finished vs) h = cc
  visited-unfinished (some v) threw h = refl
  visited-unfinished (some v) unfinished h = refl

  module _ (L : IsSetLike C) where
    different-before :
        (s : Set) (i : ℕ) → i < size s → different_iterators (at_index i) (end C this s) ≡ true
    unfolding different_iterators end
    different-before s i h = ground arith

    record Visited (s : Set) (i left : ℕ) : Type 0 where
      elements : List Element
      detached : detach_from C this s i left ≡ some elements
      counted : length elements ≡ left
      visits : visit pre_increment (suc left) s (at_index i) ≡ finished elements

    -- Over a core set that meets its laws, a loop that advances by it++ over a set that is not
    -- empty has not ended after any number of rounds.
    visit-post_increment :
        (s : Set) (rounds : ℕ)
        → 0 < size s
        → is_finished (visit (post_increment 0) rounds s (begin C this s)) ≡ false
    unfolding begin post_increment
    visit-post_increment s zero h = refl
    visit-post_increment s (suc rounds) h =
        rw (different-before s 0 h) (visited-unfinished _ _ (visit-post_increment s rounds h))
