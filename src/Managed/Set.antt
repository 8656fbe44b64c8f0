-- ===== src/Managed/Set.antt =====
-- include/barq_native/managed_set.hpp: sets of values that core stores as they are, and sets of
-- objects, which core stores as their keys.
pub mod Iteration
pub mod Insertion
pub mod Objects
pub mod Pointers
mod Tests
use barq_native.Prelude.{
  ℕ, zero, suc, ◌+◌, ◌%◌, ◌^◌, ◌≤◌, ◌<◌, ◌≡◌, ◌≢◌, Bool, true, false, not, ◌&&◌, ◌==◌, Option, none,
  some, List, [], ◌∷◌, ◌>>=◌, if◌then◌else◌,
}

-- barq::native::not_in_collection, size_t(-1)
abbrev pub not_in_collection : ℕ
not_in_collection = 18446744073709551615

-- What core's sets do. `insert` also gives the index of the element and whether it is new, and
-- get_any throws out of range.
pub record CoreSet : Type 1 where
  pub Set : Type 0
  pub Element : Type 0
  pub size : Set → ℕ
  pub get_any : Set → ℕ → Option Element
  pub insert : Element → Set → Set × (ℕ × Bool)
  pub remove : Element → Set → Set
  pub find : Set → Element → ℕ
  pub remove_all : Set → Set

module _ (C : CoreSet) where
  open C use {Set, Element, size, get_any, insert, remove, find, remove_all}

  abbrev pub Has : Set → Element → Type 0
  Has s v = find s v ≢ not_in_collection

  -- The documented behaviour: an index below the size has an element, find gives the index of an
  -- element that is in the set, and insert adds what is not there.
  pub record IsSetLike : Type 0 where
    pub size_small : (s : Set) → size s < not_in_collection
    pub get_any-bounds : (s : Set) (i : ℕ) → i < size s → (v : Element) × (get_any s i ≡ some v)
    pub find-get_any : (s : Set) (v : Element) → Has s v → get_any s (find s v) ≡ some v
    pub find-size : (s : Set) (v : Element) → Has s v → find s v < size s
    pub find-insert : (s : Set) (v : Element) → find (insert v s).0 v ≡ (insert v s).1.0
    pub Has-insert : (s : Set) (v : Element) → Has (insert v s).0 v
    pub insert-new :
        (s : Set) (v : Element) → find s v ≡ not_in_collection → (insert v s).1.1 ≡ true
    pub insert-old : (s : Set) (v : Element) → Has s v → (insert v s).1.1 ≡ false
    pub insert-same : (s : Set) (v : Element) → Has s v → (insert v s).0 ≡ s

-- iterator; the address of the managed set stands for it
pub record Iterator : Type 0 where
  pub m_i : ℕ
  pub m_parent : ℕ

unfoldable pub equal_iterators : Iterator → Iterator → Bool
equal_iterators a b = (a.m_parent == b.m_parent) && (a.m_i == b.m_i)

unfoldable pub different_iterators : Iterator → Iterator → Bool
unfolding equal_iterators
different_iterators a b = not (equal_iterators a b)

-- operator++(), with the wrap-around of size_t
unfoldable pub pre_increment : Iterator → Iterator
pre_increment it = record it { m_i = (it.m_i + 1) % 2 ^ 64 }

-- operator++(int i); `it++` passes 0
unfoldable pub post_increment : ℕ → Iterator → Iterator
post_increment i it = record it { m_i = (it.m_i + i) % 2 ^ 64 }

module _ (C : CoreSet) (this : ℕ) where
  open C use {Set, Element, size, get_any, insert, remove, find, remove_all}

  unfoldable pub begin : Set → Iterator
  begin s = record { m_i = 0; m_parent = this }

  unfoldable pub end : Set → Iterator
  end s = record { m_i = size s; m_parent = this }

  -- operator*; `none` is the exception that ends the program in a noexcept function
  unfoldable pub dereference : Set → Iterator → Option Element
  dereference s it = get_any s it.m_i

  -- The loop of detach, from index `i` on; the std::set that it fills orders what it is given.
  unfoldable pub detach_from : Set → ℕ → ℕ → Option (List Element)
  detach_from s i zero = some []
  detach_from s i (suc left) = do
    v ← get_any s i
    rest ← detach_from s (suc i) left
    some (v ∷ rest)

  unfoldable pub detach : Set → Option (List Element)
  unfolding detach_from
  detach s = detach_from s 0 (size s)

  unfoldable pub insert_value : Element → Set → Set × (Iterator × Bool)
  insert_value v s =
      let (s', res) = insert v s in (s', (record { m_i = res.0; m_parent = this }, res.1))

  unfoldable pub insert_hint : Iterator → Element → Set → Set × Iterator
  insert_hint hint v s = let (s', res) = insert v s in (s', record { m_i = res.0; m_parent = this })

  unfoldable pub find_value : Element → Set → Iterator
  unfolding end
  find_value v s =
      if find s v == not_in_collection then end s else record { m_i = find s v; m_parent = this }

  unfoldable pub erase : Iterator → Set → Option Set
  unfolding dereference
  erase it s = do v ← dereference s it; some (remove v s)

  unfoldable pub clear : Set → Set
  clear s = remove_all s

  -- insert(T*), once the object is made: a type that is not embedded is inserted twice.
  unfoldable pub insert_pointer : Bool → Element → Set → Set × (Iterator × Bool)
  insert_pointer is_embedded key s =
      let s' : Set = if is_embedded then s else (insert key s).0 in
      let (s'', res) = insert key s' in (s'', (record { m_i = res.0; m_parent = this }, res.1))
