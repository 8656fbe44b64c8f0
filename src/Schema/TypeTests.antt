-- ===== src/Schema/TypeTests.antt =====
-- The properties of members of some types.
use barq_native.Prelude.{◌≡◌, refl, false, none, some, [], ◌∷◌}
use barq_native.Schema.{Declared}
use barq_native.Schema.MemberTypes.{
  std_monostate, int64, std_map, std_optional, pointer, std_variant, no_more, alternative,
  std_vector, Flags, type_of, declare_property,
}
use barq_native.Schema.Tests.{blanks}
use barq_native.Schema.Declaration.{Conforms, declare_property-Conforms}

abbrev no_flags : Flags
no_flags = record { primary = false; search = false; text = false }

declare_property-Conforms_example :
    (d : Declared) × (declare_property 4
        (112 ∷ [])
        no_flags
        (std_map (std_optional (pointer (68 ∷ []))))
      ≡ some d)
    × Conforms blanks (std_map (std_optional (pointer (68 ∷ [])))) d
declare_property-Conforms_example =
    declare_property-Conforms blanks (std_map (std_optional (pointer (68 ∷ [])))) 4 (112 ∷ [])
      no_flags refl

-- A variant may not have a list, but may have a set.
variant_of_list :
    type_of (std_variant (alternative std_monostate (alternative (std_vector int64) no_more)))
    ≡ none
unfolding type_of
variant_of_list = refl
