-- ===== src/Mixed/Ownership.antt =====
-- The bytes that a bridge::mixed owns are those of its value, however it came to be.
use barq_native.Prelude.{◌≡◌, ◌≢◌, sym, ap₂, ◌∙◌, arith}
use barq_native.Prelude.Bytes.{Bytes}
use barq_native.Mixed.{
  CoreMixed, IsMixed, string_type, binary_type, Held, empty, from_string, from_binary, from_scalar,
  from_core, assign, copy, move_construct, move_assign, to_core, to_string, compare_held,
}

module _ (C : CoreMixed) where
  open C use {
    Mixed, Scalar, null, of_string, of_binary, of_scalar, is_null, get_type, get_string, get_binary,
  }

  -- The objects that constructors, copies, assignments and moves make.
  pub data Built : Held C → Type 0 where
    default : Built (empty C)
    of_text : (v : Bytes) → Built (from_string C v)
    of_data : (v : Bytes) → Built (from_binary C v)
    of_value : (v : Scalar) → Built (from_scalar C v)
    of_mixed : (v : Mixed) → Built (from_core C v)
    copied : {other : Held C} → Built other → Built (copy C other)
    assigned : {this other : Held C} → Built this → Built other → Built (assign C this other)
    moved : {other : Held C} → Built other → Built (move_construct C other).0
    move_assigned :
        {this other : Held C} → Built this → Built other → Built (move_assign C this other).0

  assign-value : (this other : Held C) → (assign C this other).m_mixed ≡ other.m_mixed
  unfolding assign
  assign-value this other = ground arith

  -- When a value that is neither a string nor a binary is assigned to a bridge::mixed, its
  -- conversion to std::string is the same as before.
  assign-stale :
      (this : Held C) (x : Scalar)
      → get_type (of_scalar x) ≢ string_type
      → get_type (of_scalar x) ≢ binary_type
      → to_string C (assign C this (from_scalar C x)) ≡ to_string C this
  unfolding assign from_scalar to_string
  assign-stale this x s b = ground arith

  module _ (L : IsMixed C) where
    assign-owned :
        (this other : Held C)
        → to_core C other ≡ other.m_mixed
        → to_core C (assign C this other) ≡ (assign C this other).m_mixed
    unfolding to_core assign
    assign-owned this other h = ground arith

    from_core-owned : (v : Mixed) → (to_core C (from_core C v) ≡ v) × ((from_core C v).m_mixed ≡ v)
    unfolding to_core from_core empty
    from_core-owned v = (
      ground (arith, L.is_null-null, L.null_unique v, L.of_string-get v, L.of_binary-get v),
      ground (arith, L.null_unique v),
    )

    default-owned : to_core C (empty C) ≡ null
    unfolding to_core empty
    default-owned = ground (arith, L.is_null-null)

    text-owned : (v : Bytes) → to_core C (from_string C v) ≡ of_string v
    unfolding to_core from_string
    text-owned v = ground (arith, L.is_null-string v, L.get_type-string v)

    data-owned : (v : Bytes) → to_core C (from_binary C v) ≡ of_binary v
    unfolding to_core from_binary
    data-owned v = ground (arith, L.is_null-binary v, L.get_type-binary v)

    scalar-owned : (v : Scalar) → to_core C (from_scalar C v) ≡ of_scalar v
    unfolding to_core from_scalar
    scalar-owned v = ground (arith, L.string_not_scalar v, L.binary_not_scalar v)

    copied-owned :
        (other : Held C)
        → to_core C other ≡ other.m_mixed
        → to_core C (copy C other) ≡ (copy C other).m_mixed
    unfolding copy
    copied-owned other h = assign-owned (empty C) other h

    -- Over a core Mixed that meets its laws, every bridge::mixed that constructors, copies,
    -- assignments and moves make owns the bytes of its value: its conversion to core's Mixed is
    -- the value that it holds.
    pub Built-owned : {m : Held C} → Built m → to_core C m ≡ m.m_mixed
    unfolding move_construct move_assign empty from_string from_binary from_scalar
    Built-owned default = default-owned
    Built-owned (of_text v) = text-owned v
    Built-owned (of_data v) = data-owned v
    Built-owned (of_value v) = scalar-owned v
    Built-owned (of_mixed v) = (from_core-owned v).0 ∙ sym (from_core-owned v).1
    Built-owned (copied {other = o} b) = copied-owned o (Built-owned b)
    Built-owned (assigned {this = t} {other = o} a b) = assign-owned t o (Built-owned b)
    Built-owned (moved {other = o} b) = copied-owned o (Built-owned b)
    Built-owned (move_assigned {this = t} {other = o} a b) = assign-owned t o (Built-owned b)

    -- Over a core Mixed that meets its laws, values of core that are taken into bridge::mixed
    -- compare as in core, and one that is assigned to any bridge::mixed converts back to itself.
    compare_held-from_core :
        (u v : Mixed) (t : Held C)
        → (compare_held C (from_core C u) (from_core C v) ≡ C.compare u v)
          × (to_core C (assign C t (from_core C v)) ≡ v)
    unfolding compare_held
    compare_held-from_core u v t = (
      ap₂ C.compare (from_core-owned u).0 (from_core-owned v).0,
      assign-owned t (from_core C v) ((from_core-owned v).0 ∙ sym (from_core-owned v).1)
          ∙ assign-value t (from_core C v)
          ∙ (from_core-owned v).1,
    )
