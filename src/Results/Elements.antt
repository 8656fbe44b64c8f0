-- ===== src/Results/Elements.antt =====
-- The elements of results, by index and by iterator.
use barq_native.Prelude.{ℕ, zero, suc, ◌^◌, ◌≤◌, ◌<◌, ◌≡◌, none, some}
use mathlib.Core.Option
use barq_native.Results.{CoreResults, Iterator, pre_increment}

-- ++ applied n times
abbrev pub advance : ℕ → Iterator → Iterator
advance zero it = it
advance (suc n) it = advance n (pre_increment it)

abbrev at_index : ℕ → ℕ → Iterator
at_index this i = record { m_idx = i; m_parent = this }

module _ (C : CoreResults) where
  open C use {Results, Element, size, get}

  -- The documented behaviour: there is an element at each index below the size and at no other,
  -- and a size is a size_t.
  pub record HasBounds : Type 0 where
    pub size_small : (r : Results) → size r < 2 ^ 64
    pub get-below : (r : Results) (i : ℕ) → i < size r → (v : Element) × (get r i ≡ some v)
    pub get-beyond : (r : Results) (i : ℕ) → size r ≤ i → get r i ≡ none
