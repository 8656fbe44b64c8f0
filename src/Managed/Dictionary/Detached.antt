-- ===== src/Managed/Dictionary/Detached.antt =====
-- What a detached dictionary has at each key, and what find gives.
use barq_native.Prelude.{
  ℕ, ◌<◌, ◌≡◌, ◌≢◌, ◌==◌, ltb, Option, none, some, List, [], ◌∷◌, if◌then◌else◌,
}
use mathlib.Core.Option
use barq_native.Prelude.Bytes.{Bytes, bytes_eq}
use barq_native.Managed.Dictionary.Entries.{no_index, CoreEntries, Iterator, size}

-- What a std::map has at a key
abbrev pub lookup : {V : Type 0} → Bytes → List (Bytes × V) → Option V
lookup k [] = none
lookup k ((k', v) ∷ ret) = let rest = lookup k ret in if bytes_eq k k' then some v else rest

abbrev key_of : {V : Type 0} → Option (Bytes × V) → Bytes
key_of none = []
key_of (some p) = p.0

module _ (C : CoreEntries) where
  open C use {Dict, Value, get_pair, find_any_key}

  -- The documented behaviour: the indexes below the size are those of the keys.
  pub record IsIndexed : Type 0 where
    pub size_small : (d : Dict) → C.size d < no_index
    pub get_pair-bounds :
        (d : Dict) (i : ℕ)
        → i < C.size d
        → (k : Bytes) × (v : Value) × (get_pair d i ≡ some (k, v)) × (find_any_key d k ≡ i)
    pub find-get_pair :
        (d : Dict) (k : Bytes)
        → find_any_key d k ≢ no_index
        → (find_any_key d k < C.size d)
          × (v : Value) × (get_pair d (find_any_key d k) ≡ some (k, v))

  -- The value of core's dictionary at a key: of the pair at the index of the key.
  abbrev pub value_at : Dict → Bytes → Option Value
  value_at d k =
      if find_any_key d k == no_index
      then none
      else Option.map (λ p. p.1) (get_pair d (find_any_key d k))

  -- The same, of the indexes below `i`.
  abbrev value_before : Dict → ℕ → Bytes → Option Value
  value_before d i k =
      if ltb (find_any_key d k) i
      then Option.map (λ p. p.1) (get_pair d (find_any_key d k))
      else none

  module _ (L : IsIndexed) where
    abbrev at_index : ℕ → ℕ → Iterator
    at_index this i = record { m_i = i; m_parent = this }
