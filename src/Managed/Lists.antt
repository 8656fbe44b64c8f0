-- ===== src/Managed/Lists.antt =====
-- include/barq_native/managed_list.hpp: lists of values that core stores as they are, and lists of
-- objects (Objects). `none` is an exception of core.
pub mod Refinement
pub mod Objects
mod Tests
use barq_native.Prelude.{
  ℕ, zero, suc, ◌+◌, ◌-◌, ◌%◌, ◌^◌, ◌≤◌, ◌<◌, ◌≡◌, Bool, not, ◌&&◌, ◌==◌, Option, none, some, List,
  [], ◌∷◌, ◌++◌, map, length, get_elem?, set, erase_at, ◌>>=◌, if◌then◌else◌,
}
use barq_native.Prelude.Bytes.{Bytes, codes}
use mathlib.Core.Option

-- What core's lists do. get, set and remove throw out of range.
pub record CoreList : Type 1 where
  pub Coll : Type 0
  pub Element : Type 0
  pub Sorted : Type 0
  pub size : Coll → ℕ
  pub get : Coll → ℕ → Option Element
  pub add : Element → Coll → Coll
  pub set : ℕ → Element → Coll → Option Coll
  pub remove : ℕ → Coll → Option Coll
  pub remove_all : Coll → Coll
  pub find : Coll → Element → ℕ
  pub sort : List (Bytes × Bool) → Coll → Sorted

module _ (C : CoreList) where
  -- The documented behaviour: a core list is a sequence of elements.
  pub record IsListLike : Type 0 where
    pub items : C.Coll → List C.Element
    pub size-items : (l : C.Coll) → C.size l ≡ length (items l)
    pub get-items : (l : C.Coll) (i : ℕ) → C.get l i ≡ get_elem? (items l) i
    pub items-add : (l : C.Coll) (v : C.Element) → items (C.add v l) ≡ items l ++ v ∷ []
    pub items-set :
        (l : C.Coll) (i : ℕ) (v : C.Element)
        → i < C.size l
        → Option.map items (C.set i v l) ≡ some (set (items l) i v)
    pub set-throws : (l : C.Coll) (i : ℕ) (v : C.Element) → C.size l ≤ i → C.set i v l ≡ none
    pub items-remove :
        (l : C.Coll) (i : ℕ)
        → i < C.size l
        → Option.map items (C.remove i l) ≡ some (erase_at (items l) i)
    pub remove-throws : (l : C.Coll) (i : ℕ) → C.size l ≤ i → C.remove i l ≡ none
    pub items-remove_all : (l : C.Coll) → items (C.remove_all l) ≡ []

-- iterator; the address of the managed list stands for it
pub record Iterator : Type 0 where
  pub m_i : ℕ
  pub m_parent : ℕ

unfoldable pub equal_iterators : Iterator → Iterator → Bool
equal_iterators a b = (a.m_parent == b.m_parent) && (a.m_i == b.m_i)

unfoldable pub different_iterators : Iterator → Iterator → Bool
unfolding equal_iterators
different_iterators a b = not (equal_iterators a b)

-- operator++(), with the wrap-around of size_t
unfoldable pub pre_increment : Iterator → Iterator
pre_increment it = record it { m_i = (it.m_i + 1) % 2 ^ 64 }

-- operator++(int i); `it++` passes 0
unfoldable pub post_increment : ℕ → Iterator → Iterator
post_increment i it = record it { m_i = (it.m_i + i) % 2 ^ 64 }

module _ (C : CoreList) where
  unfoldable pub begin : ℕ → C.Coll → Iterator
  begin this l = record { m_i = 0; m_parent = this }

  unfoldable pub end : ℕ → C.Coll → Iterator
  end this l = record { m_i = C.size l; m_parent = this }

  unfoldable pub pop_back : C.Coll → Option C.Coll
  pop_back l = C.remove ((C.size l + (2 ^ 64 - 1)) % 2 ^ 64) l

  unfoldable pub erase : ℕ → C.Coll → Option C.Coll
  erase idx l = C.remove idx l

  unfoldable pub clear : C.Coll → C.Coll
  clear l = C.remove_all l

  unfoldable pub size : C.Coll → ℕ
  size l = C.size l

  -- sort(bool)
  unfoldable pub sort : Bool → C.Coll → C.Sorted
  sort ascending l = C.sort ((codes "self", ascending) ∷ []) l

-- A type T of values, with what it is in core: serialize and deserialize.
module _ (C : CoreList) {T : Type 0} (serialize : T → C.Element) (deserialize : C.Element → T) where
  -- operator[]
  unfoldable pub at : ℕ → C.Coll → Option T
  at idx l = Option.map deserialize (C.get l idx)

  -- operator* of an iterator
  unfoldable pub dereference : C.Coll → Iterator → Option T
  unfolding at
  dereference l it = at it.m_i l

  -- The loop of detach, from index `i` on.
  unfoldable pub detach_from : C.Coll → ℕ → ℕ → Option (List T)
  detach_from l i zero = some []
  detach_from l i (suc left) = do
    v ← C.get l i
    rest ← detach_from l (suc i) left
    some (deserialize v ∷ rest)

  unfoldable pub detach : C.Coll → Option (List T)
  unfolding detach_from
  detach l = let ret = detach_from l 0 (C.size l) in if C.size l == 0 then some [] else ret

  unfoldable pub push_back : T → C.Coll → C.Coll
  push_back value l = C.add (serialize value) l

  unfoldable pub find_value : T → C.Coll → ℕ
  find_value a l = C.find l (serialize a)

  -- set(pos, a)
  unfoldable pub set_at : ℕ → T → C.Coll → Option C.Coll
  set_at pos a l = C.set pos (serialize a) l
