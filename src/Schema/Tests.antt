-- ===== src/Schema/Tests.antt =====
-- Schemas of a struct that has a name, which is its primary key, a list of scores, an age and the
-- links to it.
use barq_native.Prelude.{◌≡◌, refl, true, false, some, List, [], ◌∷◌}
use barq_native.Schema.{
  Kind, int, string, linking_objects, PropertyType, Declared, value, backlink, CoreDefaults,
  top_level, top_level_type, make_schema, core_property, name_for_property, to_core_schema,
}
use barq_native.Schema.Keys.{IsBlank, last_primary_of, all_named, to_core_schema-primary_key}
use barq_native.Schema.Lookup.{find_named, to_core_schema-name_for_property}

abbrev single : Kind → PropertyType
single k = record { kind = k; nullable = false; array = false; set = false; dictionary = false }

abbrev listed : Kind → PropertyType
listed k = record { kind = k; nullable = false; array = true; set = false; dictionary = false }

abbrev name_member : Declared
name_member = record {
  ptr = 0;
  member = value;
  type = single string;
  name = 110 ∷ [];
  is_primary_key = true;
  is_indexed = false;
  is_fulltext_indexed = true;
}

abbrev scores_member : Declared
scores_member = record {
  ptr = 1;
  member = value;
  type = listed int;
  name = 115 ∷ [];
  is_primary_key = false;
  is_indexed = false;
  is_fulltext_indexed = false;
}

abbrev age_member : Declared
age_member = record {
  ptr = 2;
  member = value;
  type = single int;
  name = 97 ∷ [];
  is_primary_key = false;
  is_indexed = true;
  is_fulltext_indexed = false;
}

abbrev owners_member : Declared
owners_member = record {
  ptr = 3;
  member = backlink;
  type = listed linking_objects;
  name = 111 ∷ [];
  is_primary_key = false;
  is_indexed = false;
  is_fulltext_indexed = false;
}

abbrev person : List Declared
person = name_member ∷ scores_member ∷ age_member ∷ owners_member ∷ []

abbrev pub blanks : CoreDefaults
blanks = record {
  property = record {
    name = [];
    type = single int;
    object_type = [];
    is_primary = false;
    is_indexed = false;
    is_fulltext_indexed = false;
  };
  object_schema = record {
    name = [];
    persisted_properties = [];
    primary_key = [];
    table_type = top_level;
  };
}

abbrev blanks-IsBlank : IsBlank blanks
blanks-IsBlank = record { unnamed = refl; no_properties = refl; no_key = refl }

to_core_schema-name_for_property_example :
    find_named
      (name_for_property (make_schema (80 ∷ []) top_level_type person) 2)
      (to_core_schema blanks (make_schema (80 ∷ []) top_level_type person)).persisted_properties
    ≡ some (core_property blanks age_member)
to_core_schema-name_for_property_example =
    to_core_schema-name_for_property blanks blanks-IsBlank (80 ∷ []) top_level_type
      (name_member ∷ scores_member ∷ []) (owners_member ∷ []) age_member refl refl refl refl

to_core_schema-primary_key_example :
    ((to_core_schema blanks (make_schema (80 ∷ []) top_level_type person)).primary_key
      ≡ last_primary_of []
          (to_core_schema blanks
            (make_schema (80 ∷ []) top_level_type person)).persisted_properties)
    × (all_named
          (to_core_schema blanks (make_schema (80 ∷ []) top_level_type person)).persisted_properties
        ≡ true)
to_core_schema-primary_key_example =
    to_core_schema-primary_key blanks blanks-IsBlank (80 ∷ []) top_level_type person refl
