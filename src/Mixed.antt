-- ===== src/Mixed.antt =====
-- src/barq_native/internal/bridge/mixed.cpp: bridge::mixed keeps core's Mixed, which only points to a
-- string or binary, next to a copy of the bytes of its own.
pub mod Ownership
mod Tests
use barq_native.Prelude.{
  ℕ, ◌≡◌, ◌≢◌, Bool, true, false, not, ◌&&◌, ◌==◌, Option, none, some, List, [], if◌then◌else◌,
}
use barq_native.Prelude.Bytes.{Bytes}

-- data_type::String and data_type::Binary
abbrev pub string_type : ℕ
string_type = 2

abbrev pub binary_type : ℕ
binary_type = 4

-- Core's Mixed, with the values of the other types as Scalar, and what a std::string is left with
-- when it is moved from.
pub record CoreMixed : Type 1 where
  pub Mixed : Type 0
  pub Scalar : Type 0
  pub null : Mixed
  pub of_string : Bytes → Mixed
  pub of_binary : Bytes → Mixed
  pub of_scalar : Scalar → Mixed
  pub is_null : Mixed → Bool
  pub get_type : Mixed → ℕ
  pub get_string : Mixed → Bytes
  pub get_binary : Mixed → Bytes
  pub compare : Mixed → Mixed → Bool
  pub moved_from : Bytes → Bytes

module _ (C : CoreMixed) where
  open C use {
    Mixed, Scalar, null, of_string, of_binary, of_scalar, is_null, get_type, get_string, get_binary,
    compare, moved_from,
  }

  -- The documented behaviour: a Mixed tells its type, and one that is a string or binary is made of
  -- its bytes.
  pub record IsMixed : Type 0 where
    pub is_null-null : is_null null ≡ true
    pub null_unique : (v : Mixed) → is_null v ≡ true → v ≡ null
    pub is_null-string : (s : Bytes) → is_null (of_string s) ≡ false
    pub is_null-binary : (s : Bytes) → is_null (of_binary s) ≡ false
    pub get_type-string : (s : Bytes) → get_type (of_string s) ≡ string_type
    pub get_type-binary : (s : Bytes) → get_type (of_binary s) ≡ binary_type
    pub string_not_scalar : (x : Scalar) → get_type (of_scalar x) ≢ string_type
    pub binary_not_scalar : (x : Scalar) → get_type (of_scalar x) ≢ binary_type
    pub of_string-get : (v : Mixed) → get_type v ≡ string_type → of_string (get_string v) ≡ v
    pub of_binary-get : (v : Mixed) → get_type v ≡ binary_type → of_binary (get_binary v) ≡ v

  -- bridge::mixed
  pub record Held : Type 0 where
    pub m_owned_string : Bytes
    pub m_owned_data : Bytes
    pub m_mixed : Mixed

  abbrev pub has_type : ℕ → Mixed → Bool
  has_type t v = not (is_null v) && (get_type v == t)

  unfoldable pub empty : Held
  empty = record { m_owned_string = []; m_owned_data = []; m_mixed = null }

  unfoldable pub from_string : Bytes → Held
  from_string v = record { m_owned_string = v; m_owned_data = []; m_mixed = of_string v }

  unfoldable pub from_binary : Bytes → Held
  from_binary v = record { m_owned_string = []; m_owned_data = v; m_mixed = of_binary v }

  -- The constructors from an int, a double, a bool, a timestamp, a uuid, an object id, a decimal, a
  -- link and a key.
  unfoldable pub from_scalar : Scalar → Held
  from_scalar v = record { m_owned_string = []; m_owned_data = []; m_mixed = of_scalar v }

  unfoldable pub from_core : Mixed → Held
  unfolding empty
  from_core v =
      if is_null v
      then empty
      else if get_type v == string_type
      then record { m_owned_string = get_string v; m_owned_data = []; m_mixed = v }
      else if get_type v == binary_type
      then record { m_owned_string = []; m_owned_data = get_binary v; m_mixed = v }
      else record { m_owned_string = []; m_owned_data = []; m_mixed = v }

  -- BARQ_NATIVE_OPTIONAL_MIXED, at a type whose constructor is `make`
  unfoldable pub from_optional {ℓ} : {A : Type ℓ} → (A → Held) → Option A → Held
  from_optional make none = empty
  from_optional make (some v) = make v

  -- Assignment to another object; one to itself changes nothing.
  unfoldable pub assign : Held → Held → Held
  assign this other =
      if has_type string_type other.m_mixed
      then record this { m_owned_string = other.m_owned_string; m_mixed = other.m_mixed }
      else if has_type binary_type other.m_mixed
      then record this { m_owned_data = other.m_owned_data; m_mixed = other.m_mixed }
      else record this { m_mixed = other.m_mixed }

  -- The copy constructor, on members that are default constructed.
  unfoldable pub copy : Held → Held
  unfolding assign empty
  copy other = assign empty other

  -- What a move leaves in the object that is moved from.
  unfoldable pub left_by_move : Held → Held
  left_by_move other =
      if has_type string_type other.m_mixed
      then record other { m_owned_string = moved_from other.m_owned_string }
      else if has_type binary_type other.m_mixed
      then record other { m_owned_data = moved_from other.m_owned_data }
      else other

  -- The move constructor and move assignment: the object, and the other one.
  unfoldable pub move_construct : Held → Held × Held
  unfolding copy left_by_move
  move_construct other = (copy other, left_by_move other)

  unfoldable pub move_assign : Held → Held → Held × Held
  unfolding assign left_by_move
  move_assign this other = (assign this other, left_by_move other)

  -- operator Mixed
  unfoldable pub to_core : Held → Mixed
  to_core m =
      if has_type string_type m.m_mixed
      then of_string m.m_owned_string
      else if has_type binary_type m.m_mixed
      then of_binary m.m_owned_data
      else m.m_mixed

  -- operator std::string and operator bridge::binary
  unfoldable pub to_string : Held → Bytes
  to_string m = m.m_owned_string

  unfoldable pub to_binary : Held → Bytes
  to_binary m = m.m_owned_data

  -- The six comparisons, with `compare` the one of core.
  unfoldable pub compare_held : Held → Held → Bool
  unfolding to_core
  compare_held a b = compare (to_core a) (to_core b)
