-- ===== src/Mixed/Tests.antt =====
-- Mixed values of a small core: null, texts, binaries and integers.
use barq_native.Prelude.{◌≡◌, refl, ℕ, Bool, true, false, [], ◌==◌, arith}
use barq_native.Prelude.Int.{ℤ, pos}
use barq_native.Prelude.Bytes.{Bytes, codes}
use barq_native.Mixed.{CoreMixed, IsMixed, from_string, from_scalar, move_assign, to_core}
use barq_native.Mixed.Ownership.{Built, of_text, of_value, move_assigned, Built-owned}

data SampleMixed : Type 0 where
  nothing : SampleMixed
  text binary : Bytes → SampleMixed
  number : ℤ → SampleMixed

abbrev is_nothing : SampleMixed → Bool
is_nothing nothing = true
is_nothing _ = false

abbrev type_of : SampleMixed → ℕ
type_of (text s) = 2
type_of (binary s) = 4
type_of _ = 0

abbrev bytes_of : SampleMixed → Bytes
bytes_of (text s) = s
bytes_of (binary s) = s
bytes_of _ = []

abbrev values : CoreMixed
values = record {
  Mixed = SampleMixed;
  Scalar = ℤ;
  null = nothing;
  of_string = text;
  of_binary = binary;
  of_scalar = number;
  is_null = is_nothing;
  get_type = type_of;
  get_string = bytes_of;
  get_binary = bytes_of;
  compare = λ a b. type_of a == type_of b;
  moved_from = λ s. [];
}

only_null : (v : SampleMixed) → is_nothing v ≡ true → v ≡ nothing
only_null nothing h = refl
only_null (text s) h = cc
only_null (binary s) h = cc
only_null (number z) h = cc

as_text : (v : SampleMixed) → type_of v ≡ 2 → text (bytes_of v) ≡ v
as_text (text s) h = refl
as_text nothing h = absurd (omega arith)
as_text (binary s) h = absurd (omega arith)
as_text (number z) h = absurd (omega arith)

as_binary : (v : SampleMixed) → type_of v ≡ 4 → binary (bytes_of v) ≡ v
as_binary (binary s) h = refl
as_binary nothing h = absurd (omega arith)
as_binary (text s) h = absurd (omega arith)
as_binary (number z) h = absurd (omega arith)

values-IsMixed : IsMixed values
values-IsMixed = record {
  is_null-null = refl;
  null_unique = only_null;
  is_null-string = λ s. refl;
  is_null-binary = λ s. refl;
  get_type-string = λ s. refl;
  get_type-binary = λ s. refl;
  string_not_scalar = λ x e. omega arith;
  binary_not_scalar = λ x e. omega arith;
  of_string-get = as_text;
  of_binary-get = as_binary;
}

-- A number that a text is moved into.
abbrev overwritten :
    Built values
      (move_assign values (from_scalar values (pos 7)) (from_string values (codes "barq"))).0
overwritten = move_assigned (of_value (pos 7)) (of_text (codes "barq"))

Built-owned_example :
    to_core values
      (move_assign values (from_scalar values (pos 7)) (from_string values (codes "barq"))).0
    ≡ (move_assign values
        (from_scalar values (pos 7))
        (from_string values (codes "barq"))).0.m_mixed
Built-owned_example = Built-owned values values-IsMixed overwritten
