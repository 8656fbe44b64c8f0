-- ===== src/Managed/Text.antt =====
-- src/barq_native/managed_string.cpp: managed<std::string>, and the references to its characters.
pub mod Edits
pub mod Search
mod Tests
use barq_native.Prelude.{
  ℕ, zero, suc, ◌+◌, ◌-◌, ◌%◌, ◌^◌, ◌≡◌, Bool, true, false, not, ◌==◌, ltb, Option, none, some,
  List, [], ◌∷◌, ◌++◌, length, is_empty, get_elem?, set, ◌>>=◌, if◌then◌else◌,
}
use barq_native.Prelude.Bytes.{Bytes, bytes_eq}
use barq_native.Query.{QueryEngine, string, Op, equal, not_equal, ColKey}
use barq_native.Query.Rbool.{Rbool, compare, contains}
use barq_native.Managed.{Column, Compared, in_query, in_object}

-- char_reference and const_char_reference; the parent is the field.
pub record CharReference : Type 0 where
  pub m_idx : ℕ

-- Whether a text starts with another, and whether it has it in it: find(rhs) != npos.
abbrev pub starts_with : Bytes → Bytes → Bool
starts_with text [] = true
starts_with [] (c ∷ cs) = false
starts_with (x ∷ xs) (c ∷ cs) = if x == c then starts_with xs cs else false

abbrev pub has_text : Bytes → Bytes → Bool
has_text [] rhs = starts_with [] rhs
has_text (x ∷ xs) rhs = if starts_with (x ∷ xs) rhs then true else has_text xs rhs

-- Without the last character; pop_back of an empty std::string is undefined.
abbrev pub without_last : Bytes → Option Bytes
without_last [] = none
without_last (x ∷ []) = some []
without_last (x ∷ y ∷ xs) = do rest ← without_last (y ∷ xs); some (x ∷ rest)

module _ (C : Column Bytes) where
  open C use {Obj}

  unfoldable pub size : ColKey → Obj → ℕ
  size m_key m_obj = length (C.get m_obj m_key)

  -- operator[], at, and operator[] of char_pointer: there is no test of the index
  unfoldable pub at : ℕ → CharReference
  at idx = record { m_idx = idx }

  unfoldable pub front : CharReference
  front = record { m_idx = 0 }

  -- back; the size of an empty text wraps around
  unfoldable pub back : ColKey → Obj → CharReference
  unfolding size
  back m_key m_obj = record { m_idx = (size m_key m_obj + (2 ^ 64 - 1)) % 2 ^ 64 }

  -- char_reference::operator=(char). A std::string has a 0 after its last character, which may be
  -- overwritten with 0 only; beyond it the access is undefined.
  unfoldable pub assign_char : ColKey → CharReference → ℕ → Obj → Option Obj
  assign_char m_key r c m_obj =
      let value = C.get m_obj m_key in
      if ltb r.m_idx (length value)
      then some (C.set m_obj m_key (set value r.m_idx c))
      else if r.m_idx == length value
      then (if c == 0 then some (C.set m_obj m_key value) else none)
      else none

  -- const_char_reference::operator char
  unfoldable pub read_char : ColKey → CharReference → Obj → Option ℕ
  read_char m_key r m_obj =
      let value = C.get m_obj m_key in
      if r.m_idx == length value then some 0 else get_elem? value r.m_idx

  unfoldable pub clear : ColKey → Obj → Obj
  clear m_key m_obj = C.set m_obj m_key []

  unfoldable pub push_back : ColKey → ℕ → Obj → Obj
  push_back m_key c m_obj = C.set m_obj m_key (C.get m_obj m_key ++ c ∷ [])

  -- append and operator+=
  unfoldable pub append : ColKey → Bytes → Obj → Obj
  append m_key v m_obj = C.set m_obj m_key (C.get m_obj m_key ++ v)

  unfoldable pub pop_back : ColKey → Obj → Option Obj
  pop_back m_key m_obj = do value ← without_last (C.get m_obj m_key); some (C.set m_obj m_key value)

  unfoldable pub detach : ColKey → Obj → Bytes
  detach m_key m_obj = C.get m_obj m_key

  module _ (E : QueryEngine) (text_value : Bytes → E.Value string) where
    -- operator==(const char*)
    unfoldable pub equal_chars : ColKey → Option (Rbool E) → Obj → Bytes → Compared E
    unfolding detach
    equal_chars m_key m_rbool_query m_obj rhs = elim m_rbool_query [
      | some r ↦ in_query E (compare E string equal m_key (some (text_value rhs)) r)
      | none ↦ in_object E (bytes_eq (detach m_key m_obj) rhs)
    ]

    -- operator!=(const char*)
    unfoldable pub not_equal_chars : ColKey → Option (Rbool E) → Obj → Bytes → Compared E
    unfolding detach
    not_equal_chars m_key m_rbool_query m_obj rhs = elim m_rbool_query [
      | some r ↦ in_query E (compare E string not_equal m_key (some (text_value rhs)) r)
      | none ↦ in_object E (not (bytes_eq (detach m_key m_obj) rhs))
    ]

    unfoldable pub contains_text : ColKey → Option (Rbool E) → Obj → Bytes → Bool → Compared E
    unfolding detach
    contains_text m_key m_rbool_query m_obj rhs case_sensitive = elim m_rbool_query [
      | some r ↦ in_query E (contains E m_key (text_value rhs) case_sensitive r)
      | none ↦ in_object E (has_text (detach m_key m_obj) rhs)
    ]

    unfoldable pub empty : ColKey → Option (Rbool E) → Obj → Compared E
    unfolding detach
    empty m_key m_rbool_query m_obj = elim m_rbool_query [
      | some r ↦ in_query E (compare E string equal m_key (some (text_value [])) r)
      | none ↦ in_object E (is_empty (detach m_key m_obj))
    ]
