-- ===== src/Schema/Declaration.antt =====
-- The properties that core is given for the members of a struct.
use barq_native.Prelude.{ℕ, ◌≡◌, refl, sym, ap, ◌∙◌, true, not, ◌||◌, Bool-cases, inl, inr, some}
use barq_native.Prelude.Bytes.{Bytes}
use barq_native.Schema.{
  PropertyType, or_nullable, Member, value, Declared, CoreProperty, CoreDefaults, make_property,
  set_object_link, set_type, set_indexed, set_fulltext_indexed, with_indexes, core_property,
}
use barq_native.Schema.ColumnTypes.{
  is_scalar, is_value, is_member, target_of, is_set_of_links, obeys, Plain, column, scalar-Stored,
  value-Stored,
}
use barq_native.Schema.MemberTypes.{
  CppType, vector_indexed_type, pointer, std_optional, std_vector, std_set, std_map, primary_key,
  indexed, fulltext, or_array, or_set, or_dictionary, type_of, member_of, is_primary_key,
  is_indexed, is_fulltext_indexed, Flags, declare_property,
}

with_indexes-type :
    (p : Declared) (q : CoreProperty)
    → ((with_indexes p q).type ≡ q.type) × ((with_indexes p q).object_type ≡ q.object_type)
unfolding with_indexes set_indexed set_fulltext_indexed
with_indexes-type p q = elim (Bool-cases p.is_indexed) [
  | inl i ↦ elim (Bool-cases p.is_fulltext_indexed) [
    | inl f ↦ rw (i, f) (refl, refl)
    | inr f ↦ rw (i, f) (refl, refl)
  ]
  | inr i ↦ elim (Bool-cases p.is_fulltext_indexed) [
    | inl f ↦ rw (i, f) (refl, refl)
    | inr f ↦ rw (i, f) (refl, refl)
  ]
]

module _ (D : CoreDefaults) where
  -- What core is given for a member: a property that links to the schema of the member's target,
  -- and has a type that obeys the rules unless the member is a set of links.
  pub record Conforms (t : CppType) (d : Declared) : Type 0 where
    pub links : (core_property D d).object_type ≡ target_of t D.property.object_type
    pub ruled : obeys (core_property D d).type ≡ not (is_set_of_links t)

  abbrev pub Declares : CppType → Type 0
  Declares t =
      (ptr : ℕ) (name : Bytes) (flags : Flags)
      → (d : Declared) × (declare_property ptr name flags t ≡ some d) × Conforms t d

  abbrev declared : ℕ → Bytes → Flags → CppType → PropertyType → Member → Declared
  declared ptr name flags t type member = record {
    ptr = ptr;
    member = member;
    type = type;
    name = name;
    is_primary_key = flags.primary || is_primary_key t;
    is_indexed = flags.search || is_indexed t;
    is_fulltext_indexed = flags.text || is_fulltext_indexed t;
  }

  core_property-value :
      (d : Declared)
      → d.member ≡ value
      → core_property D d ≡ with_indexes d (make_property D.property d.name d.type d.is_primary_key)
  unfolding core_property
  core_property-value d e = rw (core_property, e) refl

  plain-Declares :
      (t : CppType) (type : PropertyType)
      → Plain t
      → type_of t ≡ some type
      → obeys type ≡ true
      → Declares t
  unfolding declare_property
  plain-Declares t type p e o ptr name flags =
      let d = declared ptr name flags t type value in
      (
        d,
        rw (e, p.member) refl,
        record {
          links =
              ap (λ q. q.object_type) (core_property-value d refl)
              ∙ (with_indexes-type d _).1
              ∙ sym (p.target D.property.object_type);
          ruled =
              ap (λ q. obeys q.type) (core_property-value d refl)
              ∙ ap obeys (with_indexes-type d _).0
              ∙ o
              ∙ sym (ap not p.no_links);
        },
      )

module _ (D : CoreDefaults) where
  -- A member that operator property links to another schema, by what it makes of it.
  linked :
      (t : CppType) (type : PropertyType) (m : Member) (q : Declared → CoreProperty)
      → type_of t ≡ some type
      → member_of t ≡ some m
      → ((d : Declared) → d.member ≡ m → d.type ≡ type → core_property D d ≡ with_indexes d (q d))
      → ((d : Declared)
          → d.type ≡ type
          → ((q d).object_type ≡ target_of t D.property.object_type)
            × (obeys (q d).type ≡ not (is_set_of_links t)))
      → Declares D t
  unfolding declare_property
  linked t type m q e of made ok ptr name flags =
      let d = declared D ptr name flags t type m in
      (
        d,
        rw (e, of) refl,
        record {
          links =
              ap (λ r. r.object_type) (made d refl refl)
              ∙ (with_indexes-type d (q d)).1
              ∙ (ok d refl).0;
          ruled =
              ap (λ r. obeys r.type) (made d refl refl)
              ∙ ap obeys (with_indexes-type d (q d)).0
              ∙ (ok d refl).1;
        },
      )

  value_member : (t : CppType) → is_value t ≡ true → Declares D t
  value_member t h =
      let s = value-Stored t h in plain-Declares D t _ s.alone s.typed (rw (s.free _) refl)

  abbrev bare : Declared → CoreProperty
  bare d = make_property D.property d.name d.type d.is_primary_key

  abbrev to_link : Bytes → Declared → CoreProperty
  to_link name d = set_type (or_nullable d.type) (set_object_link name (bare d))

  abbrev to_links : Bytes → Declared → CoreProperty
  to_links name d = set_object_link name (bare d)

  vector_member : (t : CppType) → is_value t ≡ true → Declares D (std_vector t)
  unfolding type_of
  vector_member t h =
      let s = value-Stored t h in
      plain-Declares D (std_vector t) (or_array (column s.kind s.nullable)) s.in_vector
        (rw (s.typed) refl) (rw (s.free _) refl)

  set_member : (t : CppType) → is_value t ≡ true → Declares D (std_set t)
  unfolding type_of
  set_member t h =
      let s = value-Stored t h in
      plain-Declares D (std_set t) (or_set (column s.kind s.nullable)) s.in_set (rw (s.typed) refl)
        (rw (s.free _) refl)

  map_member : (t : CppType) → is_value t ≡ true → Declares D (std_map t)
  unfolding type_of
  map_member t h =
      let s = value-Stored t h in
      plain-Declares D (std_map t) (or_dictionary (column s.kind s.nullable)) s.in_map
        (rw (s.typed) refl) (rw (s.free _) refl)

  key_member : (t : CppType) → is_value t ≡ true → Declares D (primary_key t)
  unfolding type_of member_of
  key_member t h =
      let s = value-Stored t h in
      plain-Declares D (primary_key t) (column s.kind s.nullable)
        (record { member = refl; target = λ blank. refl; no_links = refl }) s.typed
        (rw (s.free _) refl)

  indexed_member : (t : CppType) → is_scalar t ≡ true → Declares D (indexed t)
  unfolding type_of member_of
  indexed_member t h =
      let s = (scalar-Stored t h).0 in
      plain-Declares D (indexed t) (column s.kind s.nullable)
        (record { member = refl; target = λ blank. refl; no_links = refl }) s.typed
        (rw (s.free _) refl)

  fulltext_member : (t : CppType) → is_scalar t ≡ true → Declares D (fulltext t)
  unfolding type_of member_of
  fulltext_member t h =
      let s = (scalar-Stored t h).0 in
      plain-Declares D (fulltext t) (column s.kind s.nullable)
        (record { member = refl; target = λ blank. refl; no_links = refl }) s.typed
        (rw (s.free _) refl)

  member : (t : CppType) → is_member t ≡ true → Declares D t
  unfolding type_of member_of core_property set_object_link set_type
  member (pointer name) h =
      linked (pointer name) _ _ (to_link name) refl refl (λ d m e. rw (core_property, m) refl)
        (λ d e. (refl, rw (e) refl))
  member (std_vector (pointer name)) h =
      linked (std_vector (pointer name)) _ _ (to_links name) refl refl
        (λ d m e. rw (core_property, m) refl) (λ d e. (refl, rw (e) refl))
  member (std_set (pointer name)) h =
      linked (std_set (pointer name)) _ _ (to_links name) refl refl
        (λ d m e. rw (core_property, m) refl) (λ d e. (refl, rw (e) refl))
  member (std_map (pointer name)) h =
      linked (std_map (pointer name)) _ _ (to_link name) refl refl
        (λ d m e. rw (core_property, m) refl) (λ d e. (refl, rw (e) refl))
  member (std_map (std_optional (pointer name))) h =
      linked (std_map (std_optional (pointer name))) _ _ (to_link name) refl refl
        (λ d m e. rw (core_property, m) refl) (λ d e. (refl, rw (e) refl))
  member (std_vector t) h = vector_member t h
  member (std_set t) h = set_member t h
  member (std_map t) h = map_member t h
  member (primary_key t) h = key_member t h
  member (indexed t) h = indexed_member t h
  member (fulltext t) h = fulltext_member t h
  member vector_indexed_type h =
      plain-Declares D vector_indexed_type _
        (record { member = refl; target = λ blank. refl; no_links = refl }) refl refl
  member t h = value_member t h

  -- For every C++ type that a member may have, alone, as an element of a vector, a set or a map,
  -- or in a wrapper for a key or an index, the member declares a property; core is given for it a
  -- link to the schema that the type points to, or to none, and a column type that obeys the
  -- rules for the flags of a property, unless the member is a set of links, whose column type
  -- breaks them.
  pub declare_property-Conforms :
      (t : CppType) (ptr : ℕ) (name : Bytes) (flags : Flags)
      → is_member t ≡ true
      → (d : Declared) × (declare_property ptr name flags t ≡ some d) × Conforms D t d
  declare_property-Conforms t ptr name flags h = member t h ptr name flags
