-- ===== src/Managed/DecimalField/Writes.antt =====
-- What the operators of a decimal field write.
use barq_native.Prelude.{◌≡◌, refl, sym, ap, Option-cases, inl, inr, some}
use mathlib.Core.Option
use barq_native.Query.{ColKey}
use barq_native.Managed.{Column, IsColumn}
use barq_native.Managed.DecimalField.{
  CoreDecimal, Arithmetic, decimal_arithmetic, decimal_arithmetic_assignment,
  optional_decimal_arithmetic, optional_decimal_arithmetic_assignment,
}

module _ (A : CoreDecimal) (C : Column A.D) (L : IsColumn C) where
  open C use {Obj, get, get_optional}

  -- What an operator makes of the value that a field has.
  abbrev pub result : Arithmetic → A.T → A.D → A.D
  result op o old_val = A.operate op old_val (A.m_decimal o)

  -- Over columns that read back what was written, each of +, -, * and / on a decimal field, as +=
  -- and its fellows, writes the result to the field, and returns it. On an optional field the
  -- operators do the same, and throw exactly when it is null.
  decimal_arithmetic-writes :
      (op : Arithmetic) (k : ColKey) (o : A.T) (m_obj : Obj)
      → ((decimal_arithmetic A C op k o m_obj).0 ≡ decimal_arithmetic_assignment A C op k o m_obj)
        × (get (decimal_arithmetic A C op k o m_obj).0 k ≡ result op o (get m_obj k))
        × ((decimal_arithmetic A C op k o m_obj).1
            ≡ A.to_native (get (decimal_arithmetic A C op k o m_obj).0 k))
        × (Option.map (λ r. r.0) (optional_decimal_arithmetic A C op k o m_obj)
            ≡ optional_decimal_arithmetic_assignment A C op k o m_obj)
        × (Option.map (λ r. get_optional r.0 k) (optional_decimal_arithmetic A C op k o m_obj)
            ≡ Option.map (λ v. some (result op o v)) (get_optional m_obj k))
  unfolding decimal_arithmetic decimal_arithmetic_assignment optional_decimal_arithmetic
      optional_decimal_arithmetic_assignment
  decimal_arithmetic-writes op k o m_obj =
      let e = L.get-set m_obj k (result op o (get m_obj k)) in
      (
        refl,
        e,
        ap A.to_native (sym e),
        elim (Option-cases (get_optional m_obj k)) [
          | inl q ↦ rw (q) refl
          | inr (v, q) ↦ rw (q) refl
        ],
        elim (Option-cases (get_optional m_obj k)) [
          | inl q ↦ rw (q) refl
          | inr (v, q) ↦ rw (q) (ap some (L.get_optional-set m_obj k (result op o v)))
        ],
      )
