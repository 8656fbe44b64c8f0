-- ===== src/Managed/Blob/Tests.antt =====
-- A binary field of two bytes.
use barq_native.Prelude.{if◌then◌else◌, ◌==◌, ◌%◌, ℕ, ◌+◌, ◌^◌, ◌≡◌, refl, some, [], ◌∷◌}
use barq_native.Prelude.Bytes.{Bytes}
use barq_native.Managed.{Column}
use barq_native.Managed.Blob.{detach, push_back, index, size, box_push_back}
use barq_native.Managed.Blob.Bytewise.{push_back-index}
use barq_native.Managed.Sample.{cells, cells-IsColumn}

abbrev byte_column : Column Bytes
byte_column = cells []

abbrev two_bytes : byte_column.Obj
two_bytes k = some (7 ∷ 8 ∷ [])

push_back-index_example :
    (o' : byte_column.Obj) × (push_back byte_column 3 9 two_bytes ≡ some o')
    × (detach byte_column 3 o' ≡ some (7 ∷ 8 ∷ 9 ∷ []))
    × (size byte_column 3 o' ≡ size byte_column 3 two_bytes + 1)
    × ((i : ℕ)
        → index byte_column 3 i o'
          ≡ (if (i % 2 ^ 8) == 2 then some 9 else index byte_column 3 i two_bytes))
    × (box_push_back byte_column 3 9 two_bytes
        ≡ some (byte_column.set two_bytes 3 (7 ∷ 8 ∷ 9 ∷ [])))
unfolding size
push_back-index_example = push_back-index byte_column (cells-IsColumn []) 3 9 two_bytes

index_wraps : index byte_column 3 257 two_bytes ≡ some 8
unfolding index
index_wraps = refl
