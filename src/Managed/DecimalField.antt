-- ===== src/Managed/DecimalField.antt =====
-- src/barq_native/managed_decimal.cpp: the arithmetic of managed<decimal128> and of its optional
-- field. What the decimals of core do is a parameter.
pub mod Writes
mod Tests
use barq_native.Prelude.{◌≡◌, Option, none, some, ◌>>=◌}
use mathlib.Core.Option
use barq_native.Query.{ColKey}
use barq_native.Managed.{Column}

pub data Arithmetic : Type 0 where
  plus minus times divided_by : Arithmetic

-- Core's decimals, and those of the caller.
pub record CoreDecimal : Type 1 where
  pub D : Type 0
  pub T : Type 0
  pub m_decimal : T → D
  pub to_native : D → T
  pub operate : Arithmetic → D → D → D

module _ (A : CoreDecimal) (C : Column A.D) where
  open C use {Obj, get, set, get_optional}

  -- managed_decimal_arithmetic: the object afterwards and the result
  unfoldable pub decimal_arithmetic : Arithmetic → ColKey → A.T → Obj → Obj × A.T
  decimal_arithmetic op m_key o m_obj =
      let new_val = A.operate op (get m_obj m_key) (A.m_decimal o) in
      (set m_obj m_key new_val, A.to_native new_val)

  -- managed_decimal_arithmetic_assignment
  unfoldable pub decimal_arithmetic_assignment : Arithmetic → ColKey → A.T → Obj → Obj
  decimal_arithmetic_assignment op m_key o m_obj =
      let new_val = A.operate op (get m_obj m_key) (A.m_decimal o) in set m_obj m_key new_val

  -- managed_optional_decimal_arithmetic; `none` is the std::runtime_error
  unfoldable pub optional_decimal_arithmetic : Arithmetic → ColKey → A.T → Obj → Option (Obj × A.T)
  optional_decimal_arithmetic op m_key o m_obj = do
    old_val ← get_optional m_obj m_key
    let new_val = A.operate op old_val (A.m_decimal o)
    some (set m_obj m_key new_val, A.to_native new_val)

  -- managed_optional_decimal_arithmetic_assignment
  unfoldable pub optional_decimal_arithmetic_assignment :
      Arithmetic → ColKey → A.T → Obj → Option Obj
  optional_decimal_arithmetic_assignment op m_key o m_obj = do
    old_val ← get_optional m_obj m_key
    let new_val = A.operate op old_val (A.m_decimal o)
    some (set m_obj m_key new_val)
