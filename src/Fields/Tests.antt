-- ===== src/Fields/Tests.antt =====
-- A struct whose members are written and read.
use barq_native.Prelude.{◌-◌, ◌^◌, ◌≡◌, refl, true, none, some, List, [], ◌∷◌, arith}
use barq_native.Query.{ColKey}
use barq_native.Fields.{
  int64, text, binary, time_point, enumeration, plain, optional, primary_key, indexed, bits8,
  MemberValue, assign_members, enum_to_int64,
}
use barq_native.Fields.Structs.{Reads, assign_members-detach}
use barq_native.Fields.Sample.{
  Cell, empty_cell, types, types-PrintsItsValues, fields, fields-IsObject,
}

-- -1 of an enum of 8 bits is -1 as an int64_t.
enum_to_int64-minus_one : enum_to_int64 true bits8 255 ≡ 2 ^ 64 - 1
unfolding enum_to_int64
enum_to_int64-minus_one = refl

-- A struct with a key, a text that is absent, an enum, a binary and a date
abbrev dog : List (MemberValue types fields)
dog =
    record { key = 0; type = primary_key (plain int64); value = 7 }
    ∷ record { key = 1; type = optional text; value = none }
    ∷ record { key = 2; type = indexed (plain (enumeration true bits8)); value = 255 }
    ∷ record { key = 3; type = plain binary; value = 1 ∷ 2 ∷ [] }
    ∷ record { key = 4; type = optional time_point; value = some 1000 }
    ∷ []

assign_members-detach_example :
    (after : ColKey → Cell) × (assign_members types fields dog (λ k. empty_cell) ≡ some after)
    × Reads types fields dog after
assign_members-detach_example =
    assign_members-detach types fields types-PrintsItsValues fields-IsObject dog (λ k. empty_cell)
      (ground arith)
