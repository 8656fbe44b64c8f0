-- ===== src/Managed/DecimalField/Tests.antt =====
-- Decimals that are integers, where division gives the dividend.
use barq_native.Prelude.{some}
use barq_native.Prelude.Int.{ℤ, pos, ◌+ℤ◌, ◌-ℤ◌, ◌*ℤ◌}
use barq_native.Managed.DecimalField.{Arithmetic, plus, minus, times, divided_by, CoreDecimal}
use barq_native.Managed.Sample.{Cells}

abbrev calculate : Arithmetic → ℤ → ℤ → ℤ
calculate plus a b = a +ℤ b
calculate minus a b = a -ℤ b
calculate times a b = a *ℤ b
calculate divided_by a b = a

abbrev whole : CoreDecimal
whole = record { D = ℤ; T = ℤ; m_decimal = λ v. v; to_native = λ v. v; operate = calculate }

abbrev six : Cells (pos 0)
six k = some (pos 6)
