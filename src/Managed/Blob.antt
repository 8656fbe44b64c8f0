-- ===== src/Managed/Blob.antt =====
-- src/barq_native/managed_binary.cpp: managed<std::vector<uint8_t>> and the box of the optional
-- field. `none` is undefined behaviour. Also the copy of a bridge::binary into a vector, of
-- src/barq_native/internal/bridge/binary.cpp.
pub mod Bytewise
mod Tests
use barq_native.Prelude.{
  ℕ, zero, suc, ◌+◌, ◌%◌, ◌^◌, ◌≡◌, Bool, Option, none, some, List, [], ◌∷◌, ◌++◌, length,
  get_elem?, ◌>>=◌,
}
use mathlib.Core.Option
use barq_native.Prelude.Bytes.{Bytes}
use barq_native.Query.{ColKey}
use barq_native.Managed.{Column}

-- binary::operator std::vector<uint8_t>: the loop from index `i` on
unfoldable pub to_vector_from : Bytes → ℕ → ℕ → Option Bytes
to_vector_from b i zero = some []
to_vector_from b i (suc left) = do
  v ← get_elem? b i
  rest ← to_vector_from b (suc i) left
  some (v ∷ rest)

unfoldable pub to_vector : Bytes → Option Bytes
unfolding to_vector_from
to_vector b = to_vector_from b 0 (length b)

module _ (C : Column Bytes) where
  open C use {Obj}

  unfoldable pub detach : ColKey → Obj → Option Bytes
  unfolding to_vector
  detach m_key m_obj = to_vector (C.get m_obj m_key)

  unfoldable pub push_back : ColKey → ℕ → Obj → Option Obj
  unfolding to_vector
  push_back m_key v m_obj = do
    v2 ← to_vector (C.get m_obj m_key)
    some (C.set m_obj m_key (v2 ++ v ∷ []))

  -- operator[](uint8_t)
  unfoldable pub index : ColKey → ℕ → Obj → Option ℕ
  index m_key idx m_obj = get_elem? (C.get m_obj m_key) (idx % 2 ^ 8)

  unfoldable pub size : ColKey → Obj → ℕ
  size m_key m_obj = length (C.get m_obj m_key)

  -- The optional field: detach, and push_back, operator[] and size of its box.
  unfoldable pub optional_detach : ColKey → Obj → Option (Option Bytes)
  unfolding to_vector
  optional_detach m_key m_obj = elim (C.get_optional m_obj m_key) [
    | none ↦ some none
    | some b ↦ do v ← to_vector b; some (some v)
  ]

  -- On null it does nothing.
  unfoldable pub box_push_back : ColKey → ℕ → Obj → Option Obj
  unfolding to_vector
  box_push_back m_key v m_obj = elim (C.get_optional m_obj m_key) [
    | none ↦ some m_obj
    | some b ↦ do v2 ← to_vector b; some (C.set m_obj m_key (v2 ++ v ∷ []))
  ]

  unfoldable pub box_index : ColKey → ℕ → Obj → Option ℕ
  box_index m_key idx m_obj = do b ← C.get_optional m_obj m_key; get_elem? b (idx % 2 ^ 8)

  unfoldable pub box_size : ColKey → Obj → ℕ
  box_size m_key m_obj = length (C.get m_obj m_key)
