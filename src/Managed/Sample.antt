-- ===== src/Managed/Sample.antt =====
-- Columns for the examples: an object is a function from column keys to optional values; and the
-- object of a row of the sample engine, which has the integers of the row.
use barq_native.Prelude.{◌≡◌, ap, Option, none, some, [], ◌∷◌, ◌==◌, if◌then◌else◌, arith}
use barq_native.Prelude.Int.{ℤ, pos}
use barq_native.Query.{ColKey}
use barq_native.Query.Sample.{sample}
use barq_native.Managed.{Column, IsColumn}

-- Columns of any type, with the value that is read from a null.
module _ {A : Type 0} (default : A) where
  abbrev pub Cells : Type 0
  Cells = ColKey → Option A

  abbrev pub write_cell : Cells → ColKey → Option A → Cells
  write_cell o k v j = if j == k then v else o j

  abbrev pub or_default : Option A → A
  or_default none = default
  or_default (some v) = v

  abbrev pub cells : Column A
  cells = record {
    Obj = Cells;
    get = λ o k. or_default (o k);
    set = λ o k v. write_cell o k (some v);
    get_optional = λ o k. o k;
    set_null = λ o k. write_cell o k none;
  }

  get-write_cell : (o : Cells) (k : ColKey) (v : Option A) → write_cell o k v k ≡ v
  get-write_cell o k v = ground arith

  pub cells-IsColumn : IsColumn cells
  cells-IsColumn = record {
    get-set = λ o k v. ap or_default (get-write_cell o k (some v));
    get_other-set = λ o k j v d. ground arith;
    get_optional-set = λ o k v. get-write_cell o k (some v);
    get_optional-set_null = λ o k. get-write_cell o k none;
  }

abbrev pub Fields : Type 0
Fields = Cells (pos 0)

abbrev pub fields : Column ℤ
fields = cells (pos 0)

abbrev pub write : Fields → ColKey → Option ℤ → Fields
write = write_cell (pos 0)

abbrev pub or_zero : Option ℤ → ℤ
or_zero = or_default (pos 0)

pub fields-IsColumn : IsColumn fields
fields-IsColumn = cells-IsColumn (pos 0)

abbrev pub object_of : sample.Row → Fields
object_of row k = some (row (k ∷ []))

abbrev pub row_of : ℤ → sample.Row
row_of z cs = z
