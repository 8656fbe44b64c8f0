-- ===== src/Managed/Dictionary/Entries.antt =====
-- include/barq_native/managed_dictionary.hpp: managed<std::map<std::string, T>> of values that core
-- stores as they are, outside a query. `none` is an exception.
use barq_native.Prelude.{
  ℕ, zero, suc, ◌+◌, ◌%◌, ◌^◌, Bool, true, false, not, ◌&&◌, ◌==◌, Option, none, some, List, [],
  ◌∷◌, ◌>>=◌, if◌then◌else◌,
}
use barq_native.Prelude.Bytes.{Bytes, bytes_eq}

-- size_t(-1), which core gives for a key that is not there
abbrev pub no_index : ℕ
no_index = 18446744073709551615

pub record CoreEntries : Type 1 where
  pub Dict : Type 0
  pub Value : Type 0
  pub size : Dict → ℕ
  pub get_pair : Dict → ℕ → Option (Bytes × Value)
  pub find_any_key : Dict → Bytes → ℕ
  pub erase : Bytes → Dict → Option Dict

-- iterator; the address of the managed dictionary stands for it
pub record Iterator : Type 0 where
  pub m_i : ℕ
  pub m_parent : ℕ

unfoldable pub equal_iterators : Iterator → Iterator → Bool
equal_iterators a b = (a.m_parent == b.m_parent) && (a.m_i == b.m_i)

unfoldable pub different_iterators : Iterator → Iterator → Bool
unfolding equal_iterators
different_iterators a b = not (equal_iterators a b)

-- operator++(), with the wrap-around of size_t
unfoldable pub pre_increment : Iterator → Iterator
pre_increment it = record it { m_i = (it.m_i + 1) % 2 ^ 64 }

-- ret[k] = v of a std::map, which is a list of its entries here.
abbrev pub assign_entry : {V : Type 0} → Bytes → V → List (Bytes × V) → List (Bytes × V)
assign_entry k v [] = (k, v) ∷ []
assign_entry k v ((k', v') ∷ ret) =
    let rest = assign_entry k v ret in if bytes_eq k k' then (k', v) ∷ ret else (k', v') ∷ rest

module _ (C : CoreEntries) (this : ℕ) where
  open C use {Dict, Value, get_pair, find_any_key}

  unfoldable pub size : Dict → ℕ
  size d = C.size d

  unfoldable pub begin : Dict → Iterator
  begin d = record { m_i = 0; m_parent = this }

  unfoldable pub end : Dict → Iterator
  unfolding size
  end d = record { m_i = size d; m_parent = this }

  unfoldable pub dereference : Dict → Iterator → Option (Bytes × Value)
  dereference d it = get_pair d it.m_i

  -- The loop of detach, for at most `rounds` tests of its condition; `none` also when they do not
  -- suffice.
  unfoldable pub detach_from :
      ℕ → Dict → Iterator → List (Bytes × Value) → Option (List (Bytes × Value))
  unfolding different_iterators pre_increment end dereference
  detach_from zero d it ret = none
  detach_from (suc rounds) d it ret = elim (different_iterators it (end d)) [
    | false ↦ some ret
    | true ↦ do
      (k, v) ← dereference d it
      detach_from rounds d (pre_increment it) (assign_entry k v ret)
  ]

  -- detach, of a T that is no pointer
  unfoldable pub detach : Dict → Option (List (Bytes × Value))
  unfolding detach_from begin size
  detach d = detach_from (suc (size d)) d (begin d) []

  unfoldable pub find : Bytes → Dict → Iterator
  unfolding size
  find key d =
      if find_any_key d key == no_index
      then record { m_i = size d; m_parent = this }
      else record { m_i = find_any_key d key; m_parent = this }

  unfoldable pub contains_key : Bytes → Dict → Bool
  contains_key key d = not (find_any_key d key == no_index)

  unfoldable pub erase : Bytes → Dict → Option Dict
  erase key d = C.erase key d
