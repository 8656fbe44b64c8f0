-- ===== src/Schema/ColumnTypes.antt =====
-- The columns of core that the members of a struct become, against the rules for the flags of a
-- property in include/barq_native/internal/bridge/property.hpp.
use barq_native.Prelude.{◌≡◌, refl, Bool, true, false, not, ◌&&◌, some}
use barq_native.Prelude.Bytes.{Bytes}
use barq_native.Schema.{Kind, object, linking_objects, mixed, PropertyType, value}
use barq_native.Schema.MemberTypes.{
  CppType, c_string, vector_indexed_type, pointer, linking, std_variant, std_optional, std_vector,
  std_set, std_map, primary_key, indexed, fulltext, check_variant_types, type_of, member_of,
}

-- The values that core stores as they are; a const char* is none, for which operator property does
-- not compile.
abbrev pub is_scalar : CppType → Bool
is_scalar (std_variant ts) = check_variant_types ts
is_scalar (pointer name) = false
is_scalar (linking name) = false
is_scalar (std_optional t) = false
is_scalar (std_vector t) = false
is_scalar (std_set t) = false
is_scalar (std_map t) = false
is_scalar (primary_key t) = false
is_scalar (indexed t) = false
is_scalar (fulltext t) = false
is_scalar vector_indexed_type = false
is_scalar c_string = false
is_scalar _ = true

abbrev pub is_value : CppType → Bool
is_value (std_optional t) = is_scalar t
is_value t = is_scalar t

abbrev pub is_element : CppType → Bool
is_element (pointer name) = true
is_element t = is_value t

-- The members that the documentation allows, less the links from other objects.
abbrev pub is_member : CppType → Bool
is_member (pointer name) = true
is_member (std_vector t) = is_element t
is_member (std_set t) = is_element t
is_member (std_map (std_optional (pointer name))) = true
is_member (std_map t) = is_element t
is_member (primary_key t) = is_value t
is_member (indexed t) = is_scalar t
is_member (fulltext t) = is_scalar t
is_member vector_indexed_type = true
is_member t = is_value t

-- The schema that the member links to
abbrev pub target_of : CppType → Bytes → Bytes
target_of (pointer name) blank = name
target_of (std_vector (pointer name)) blank = name
target_of (std_set (pointer name)) blank = name
target_of (std_map (pointer name)) blank = name
target_of (std_map (std_optional (pointer name))) blank = name
target_of _ blank = blank

abbrev pub is_set_of_links : CppType → Bool
is_set_of_links (std_set (pointer name)) = true
is_set_of_links _ = false

-- The rules: an Object is either Array xor Nullable, LinkingObjects is Array and not Nullable, and
-- there is one collection at most.
abbrev pub xor : Bool → Bool → Bool
xor true b = not b
xor false b = b

abbrev pub kind_rule : Kind → PropertyType → Bool
kind_rule object t = xor t.array t.nullable
kind_rule linking_objects t = t.array && not t.nullable
kind_rule _ t = true

abbrev pub at_most_one : Bool → Bool → Bool → Bool
at_most_one true b c = not b && not c
at_most_one false b c = not (b && c)

abbrev pub obeys : PropertyType → Bool
obeys t = kind_rule t.kind t && at_most_one t.array t.set t.dictionary

-- The member is a value to operator property.
pub record Plain (t : CppType) : Type 0 where
  pub member : member_of t ≡ some value
  pub target : (blank : Bytes) → target_of t blank ≡ blank
  pub no_links : is_set_of_links t ≡ false

abbrev pub column : Kind → Bool → PropertyType
column k n = record { kind = k; nullable = n; array = false; set = false; dictionary = false }

-- What the column of a value is: no collection, and no link.
pub record Stored (t : CppType) : Type 0 where
  pub kind : Kind
  pub nullable : Bool
  pub typed :
      type_of t
      ≡ some (record {
        kind = kind;
        nullable = nullable;
        array = false;
        set = false;
        dictionary = false;
      })
  pub free : (u : PropertyType) → kind_rule kind u ≡ true
  pub alone : Plain t
  pub in_vector : Plain (std_vector t)
  pub in_set : Plain (std_set t)
  pub in_map : Plain (std_map t)

pub scalar-Stored : (t : CppType) → is_scalar t ≡ true → Stored t × Plain (std_map (std_optional t))
unfolding type_of member_of
scalar-Stored (pointer name) h = cc
scalar-Stored (linking name) h = cc
scalar-Stored (std_optional t) h = cc
scalar-Stored (std_vector t) h = cc
scalar-Stored (std_set t) h = cc
scalar-Stored (std_map t) h = cc
scalar-Stored (primary_key t) h = cc
scalar-Stored (indexed t) h = cc
scalar-Stored (fulltext t) h = cc
scalar-Stored vector_indexed_type h = cc
scalar-Stored c_string h = cc
scalar-Stored (std_variant ts) h = (
  record {
    kind = mixed;
    nullable = true;
    typed = rw (h) refl;
    free = λ u. refl;
    alone = record { member = refl; target = λ blank. refl; no_links = refl };
    in_vector = record { member = refl; target = λ blank. refl; no_links = refl };
    in_set = record { member = refl; target = λ blank. refl; no_links = refl };
    in_map = record { member = refl; target = λ blank. refl; no_links = refl };
  },
  record { member = refl; target = λ blank. refl; no_links = refl },
)
scalar-Stored t h = (
  record {
    kind = _;
    nullable = _;
    typed = refl;
    free = λ u. refl;
    alone = record { member = refl; target = λ blank. refl; no_links = refl };
    in_vector = record { member = refl; target = λ blank. refl; no_links = refl };
    in_set = record { member = refl; target = λ blank. refl; no_links = refl };
    in_map = record { member = refl; target = λ blank. refl; no_links = refl };
  },
  record { member = refl; target = λ blank. refl; no_links = refl },
)

pub value-Stored : (t : CppType) → is_value t ≡ true → Stored t
unfolding type_of member_of
value-Stored (std_optional t) h =
    let (s, m) = scalar-Stored t h in
    record {
      kind = s.kind;
      nullable = true;
      typed = rw (s.typed) refl;
      free = s.free;
      alone = record { member = refl; target = λ blank. refl; no_links = refl };
      in_vector = record { member = refl; target = λ blank. refl; no_links = refl };
      in_set = record { member = refl; target = λ blank. refl; no_links = refl };
      in_map = m;
    }
value-Stored t h = (scalar-Stored t h).0
