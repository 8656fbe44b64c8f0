-- ===== src/Managed/Numeric/Arithmetic.antt =====
-- The arithmetic of managed integers, over any sequence of operators.
use mathlib.Core.Option
use barq_native.Prelude.{
  ◌≡◌, ◌≢◌, refl, ◌∙◌, Option, none, some, List, [], ◌∷◌, ◌>>=◌, Option-cases, inl, inr, arith,
}
use barq_native.Prelude.Int.{ℤ, pos, ◌+ℤ◌, ◌-ℤ◌, ◌*ℤ◌}
use barq_native.Query.{ColKey}
use barq_native.Managed.{Column, IsColumn}
use barq_native.Managed.Numeric.{
  checked, add_assign, increment, subtract_assign, decrement, multiply_assign, Outcome, done,
  null_value, undefined, optional_add_assign, optional_increment, optional_subtract_assign,
  optional_decrement, optional_multiply_assign, optional_multiply,
}

-- An operator that changes the field.
pub data Step : Type 0 where
  add : ℤ → Step
  subtract : ℤ → Step
  multiply : ℤ → Step
  incremented decremented : Step

abbrev pub value : Step → ℤ → ℤ
value (add z) v = v +ℤ z
value (subtract z) v = v -ℤ z
value (multiply z) v = v *ℤ z
value incremented v = v +ℤ pos 1
value decremented v = v -ℤ pos 1

-- The sequence on the value alone, undefined as soon as a result is out of range.
abbrev pub run_values : List Step → ℤ → Option ℤ
run_values [] v = some v
run_values (s ∷ ss) v = checked (value s v) >>= run_values ss

module _ (C : Column ℤ) where
  open C use {Obj, get, set, get_optional}

  abbrev pub step : Step → ColKey → Obj → Option Obj
  step (add z) k o = add_assign C k z o
  step (subtract z) k o = subtract_assign C k z o
  step (multiply z) k o = multiply_assign C k z o
  step incremented k o = increment C k o
  step decremented k o = decrement C k o

  abbrev pub run_steps : List Step → ColKey → Obj → Option Obj
  run_steps [] k o = some o
  run_steps (s ∷ ss) k o = step s k o >>= run_steps ss k

  abbrev pub written : ColKey → Obj → Option ℤ → Option Obj
  written k o v = Option.map (set o k) v

  step-written :
      (s : Step) (k : ColKey) (o : Obj) → step s k o ≡ written k o (checked (value s (get o k)))
  unfolding add_assign subtract_assign multiply_assign increment decrement
  step-written (add z) k o = ground arith
  step-written (subtract z) k o = ground arith
  step-written (multiply z) k o = ground arith
  step-written incremented k o = ground arith
  step-written decremented k o = ground arith

  module _ (L : IsColumn C) where
    -- Any sequence of operators on a field is defined exactly as long as each result is in the
    -- range of int64_t, and then the field has the value that the sequence computes, when core
    -- reads a write back.
    pub run_steps-run_values :
        (steps : List Step) (k : ColKey) (o : Obj)
        → Option.map (λ o'. get o' k) (run_steps steps k o) ≡ run_values steps (get o k)
    run_steps-run_values [] k o = refl
    run_steps-run_values (s ∷ ss) k o = elim (Option-cases (checked (value s (get o k)))) [
      | inl e ↦ rw (step-written s k o, e) refl
      | inr (v, e) ↦
          rw (step-written s k o, e, run_steps-run_values ss k (set o k v), L.get-set o k v) refl
    ]

    -- A sequence of operators on a field leaves every other field of the object as it was, when
    -- core's writes do.
    run_steps-others :
        (steps : List Step) (k j : ColKey) (o o' : Obj)
        → k ≢ j
        → run_steps steps k o ≡ some o'
        → get o' j ≡ get o j
    run_steps-others [] k j o o' d h = cc
    run_steps-others (s ∷ ss) k j o o' d h = elim (Option-cases (checked (value s (get o k)))) [
      | inl e ↦ ground (arith, step-written s k o)
      | inr (v, e) ↦
          run_steps-others ss k j (set o k v) o' d (ground (arith, step-written s k o))
          ∙ L.get_other-set o k j v d
    ]

  abbrev pub optional_step : Step → ColKey → Obj → Outcome C
  optional_step (add z) k o = optional_add_assign C k z o
  optional_step (subtract z) k o = optional_subtract_assign C k z o
  optional_step (multiply z) k o = optional_multiply_assign C k z o
  optional_step incremented k o = optional_increment C k o
  optional_step decremented k o = optional_decrement C k o

  abbrev pub outcome : Option Obj → Outcome C
  outcome none = undefined
  outcome (some o) = done o

  -- What an operator on an optional field is to do, by the value that the field has.
  abbrev pub expected : Step → ColKey → Obj → Option ℤ → Outcome C
  expected s k o none = null_value
  expected s k o (some v) = outcome (written k o (checked (value s v)))

  -- Each operator on an optional field throws when the field is null, writes the result when it
  -- is in the range of int64_t, and is undefined otherwise.
  optional_step-expected :
      (s : Step) (k : ColKey) (o : Obj) → optional_step s k o ≡ expected s k o (get_optional o k)
  unfolding optional_add_assign optional_subtract_assign optional_multiply_assign optional_increment
      optional_decrement add_assign subtract_assign multiply_assign increment decrement
  optional_step-expected (add z) k o = ground arith
  optional_step-expected (subtract z) k o = ground arith
  optional_step-expected (multiply z) k o = ground arith
  optional_step-expected incremented k o = ground arith
  optional_step-expected decremented k o = ground arith

  -- On a field that is not null, with a product in range, the binary operator* on an optional
  -- field, like operator*=, writes the product to the field.
  optional_multiply-writes :
      IsColumn C
      → (k : ColKey) (z v p : ℤ) (o : Obj) → get_optional o k ≡ some v
      → checked (v *ℤ z) ≡ some p
      → (o' : Obj) × (optional_multiply C k z o ≡ done o')
        × (get_optional o' k ≡ some p)
        × (optional_multiply_assign C k z o ≡ done o')
  unfolding optional_multiply optional_multiply_assign
  optional_multiply-writes L k z v p o known e = (
    set o k p,
    rw (optional_multiply, known, e) refl,
    L.get_optional-set o k p,
    rw (optional_multiply_assign, known, e) refl,
  )
