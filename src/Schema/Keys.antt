-- ===== src/Schema/Keys.antt =====
-- The primary key of the schema of core, against the properties that the schema has.
use barq_native.Prelude.{
  ◌≡◌, refl, sym, ap, ◌∙◌, Bool, true, false, not, ◌||◌, ◌&&◌, Bool-cases, inl, inr, List, map,
  append_assoc, append-nil, [], ◌∷◌, ◌++◌, arith, if◌then◌else◌,
}
use barq_native.Prelude.Bytes.{Bytes, bytes_eq}
use barq_native.Schema.{
  do_apply_name, Declared, CoreProperty, CoreDefaults, ObjectType, make_property, or_nullable,
  Member, value, vector_of_links, set_of_links, map_of_links, map_of_optional_links, link, backlink,
  with_indexes, set_indexed, set_fulltext_indexed, set_object_link, set_type, core_property,
  make_schema, has_primary_key, add_properties, to_core_schema,
}

abbrev pub names_of : List Declared → List Bytes
names_of ps = map (λ p. p.name) ps

-- The name of the last primary key, or `name` when there is none.
abbrev pub last_primary : Bytes → List Declared → Bytes
last_primary name [] = name
last_primary name (p ∷ ps) = last_primary (if p.is_primary_key then p.name else name) ps

pub do_apply_name-names :
    (ps : List Declared) (names : List Bytes) (key : Bytes)
    → do_apply_name ps names key ≡ (names ++ names_of ps, last_primary key ps)
unfolding do_apply_name
do_apply_name-names [] names key = ap (λ xs. (xs, key)) (sym (append-nil names))
do_apply_name-names (p ∷ ps) names key =
    do_apply_name-names ps (names ++ p.name ∷ []) (if p.is_primary_key then p.name else key)
    ∙ ap (λ xs. (xs, last_primary (if p.is_primary_key then p.name else key) ps))
        (append_assoc names (p.name ∷ []) (names_of ps))

-- What core documents of a property and of an object schema that are made without arguments.
pub record IsBlank (D : CoreDefaults) : Type 0 where
  pub unnamed : D.property.name ≡ []
  pub no_properties : D.object_schema.persisted_properties ≡ []
  pub no_key : D.object_schema.primary_key ≡ []

abbrev pub is_stored : Member → Bool
is_stored backlink = false
is_stored _ = true

-- A property that is primary has a name and is not a backlink.
abbrev pub is_keyed : List Declared → Bool
is_keyed [] = true
is_keyed (p ∷ ps) =
    (not p.is_primary_key || (not (bytes_eq p.name []) && is_stored p.member)) && is_keyed ps

-- The name of the last property of core that is primary, or `name` when there is none.
abbrev pub last_primary_of : Bytes → List CoreProperty → Bytes
last_primary_of name [] = name
last_primary_of name (q ∷ qs) = last_primary_of (if q.is_primary then q.name else name) qs

abbrev pub all_named : List CoreProperty → Bool
all_named [] = true
all_named (q ∷ qs) = not (bytes_eq q.name []) && all_named qs

last_primary_of-append :
    (name : Bytes) (qs : List CoreProperty) (q : CoreProperty)
    → last_primary_of name (qs ++ q ∷ [])
      ≡ (if q.is_primary then q.name else last_primary_of name qs)
last_primary_of-append name [] q = refl
last_primary_of-append name (r ∷ qs) q =
    last_primary_of-append (if r.is_primary then r.name else name) qs q

all_named-append :
    (qs : List CoreProperty) (q : CoreProperty)
    → all_named qs ≡ true
    → bytes_eq q.name [] ≡ false
    → all_named (qs ++ q ∷ []) ≡ true
all_named-append [] q h e = rw (e) refl
all_named-append (r ∷ qs) q h e = elim (Bool-cases (bytes_eq r.name [])) [
  | inl f ↦ ground arith
  | inr f ↦ ground (arith, all_named-append qs q)
]

with_indexes-name :
    (p : Declared) (q : CoreProperty)
    → ((with_indexes p q).name ≡ q.name) × ((with_indexes p q).is_primary ≡ q.is_primary)
unfolding with_indexes set_indexed set_fulltext_indexed
with_indexes-name p q = elim (Bool-cases p.is_indexed) [
  | inl i ↦ elim (Bool-cases p.is_fulltext_indexed) [
    | inl f ↦ rw (i, f) (refl, refl)
    | inr f ↦ rw (i, f) (refl, refl)
  ]
  | inr i ↦ elim (Bool-cases p.is_fulltext_indexed) [
    | inl f ↦ rw (i, f) (refl, refl)
    | inr f ↦ rw (i, f) (refl, refl)
  ]
]

is_keyed-tail : (p : Declared) (ps : List Declared) → is_keyed (p ∷ ps) ≡ true → is_keyed ps ≡ true
is_keyed-tail p ps h = ground arith

unnamed_key :
    (p : Declared) (ps : List Declared)
    → bytes_eq p.name [] ≡ true
    → is_keyed (p ∷ ps) ≡ true
    → p.is_primary_key ≡ false
unnamed_key p ps e h = ground arith

backlink_key :
    (p : Declared) (ps : List Declared)
    → is_stored p.member ≡ false
    → is_keyed (p ∷ ps) ≡ true
    → p.is_primary_key ≡ false
backlink_key p ps e h = ground arith

has_primary_key-last :
    (ps : List Declared) (name : Bytes) → has_primary_key ps ≡ false → last_primary name ps ≡ name
unfolding has_primary_key
has_primary_key-last [] name h = refl
has_primary_key-last (p ∷ ps) name h =
    let none_here : p.is_primary_key ≡ false = ground arith in
    let none_after : has_primary_key ps ≡ false = ground arith in
    rw (none_here) (has_primary_key-last ps name none_after)

module _ (D : CoreDefaults) (L : IsBlank D) where
  -- What the conversion keeps of a property: its name and whether it is primary, but of a backlink
  -- nothing.
  pub data Kept (p : Declared) : Type 0 where
    stored :
        is_stored p.member ≡ true
        → (core_property D p).name ≡ p.name
        → (core_property D p).is_primary ≡ p.is_primary_key
        → Kept p
    left_out : is_stored p.member ≡ false → (core_property D p).name ≡ [] → Kept p

  -- The property that the conversion starts from
  abbrev plain : Declared → CoreProperty
  plain p = make_property D.property p.name p.type p.is_primary_key

  pub core_property-Kept : (p : Declared) → Kept p
  unfolding core_property set_object_link set_type
  core_property-Kept p = by_member p.member refl
    where
      as_declared :
          is_stored p.member ≡ true
          → (q : CoreProperty) → q.name ≡ p.name
          → q.is_primary ≡ p.is_primary_key
          → core_property D p ≡ with_indexes p q
          → Kept p
      as_declared s q n k e =
          stored s (ap (λ r. r.name) e ∙ (with_indexes-name p q).0 ∙ n)
            (ap (λ r. r.is_primary) e ∙ (with_indexes-name p q).1 ∙ k)

      by_member : (m : Member) → p.member ≡ m → Kept p
      by_member value e = as_declared (rw (e) refl) (plain p) refl refl (rw (core_property, e) refl)
      by_member (vector_of_links target) e =
          as_declared (rw (e) refl) (set_object_link target (plain p)) refl refl
            (rw (core_property, e) refl)
      by_member (set_of_links target) e =
          as_declared (rw (e) refl) (set_object_link target (plain p)) refl refl
            (rw (core_property, e) refl)
      by_member (map_of_links target) e =
          as_declared (rw (e) refl)
            (set_type (or_nullable p.type) (set_object_link target (plain p))) refl refl
            (rw (core_property, e) refl)
      by_member (map_of_optional_links target) e =
          as_declared (rw (e) refl)
            (set_type (or_nullable p.type) (set_object_link target (plain p))) refl refl
            (rw (core_property, e) refl)
      by_member (link target) e =
          as_declared (rw (e) refl)
            (set_type (or_nullable p.type) (set_object_link target (plain p))) refl refl
            (rw (core_property, e) refl)
      by_member backlink e = left_out (rw (e) refl) (rw (core_property, e) L.unnamed)

  add_properties-last :
      (ps : List Declared) (added : List CoreProperty)
      → is_keyed ps ≡ true
      → last_primary_of [] (add_properties D ps added) ≡ last_primary (last_primary_of [] added) ps
  unfolding add_properties
  add_properties-last [] added h = refl
  add_properties-last (p ∷ ps) added h = elim (core_property-Kept p) [
    | stored s n k ↦ elim (Bool-cases (bytes_eq p.name [])) [
      | inl e ↦
          rw (n, e, unnamed_key p ps e h) (add_properties-last ps added (is_keyed-tail p ps h))
      | inr e ↦
          rw (n, e)
            (add_properties-last ps (added ++ core_property D p ∷ []) (is_keyed-tail p ps h)
              ∙ ap (λ x. last_primary x ps)
                  (last_primary_of-append [] added (core_property D p) ∙ rw (n, k) refl))
    ]
    | left_out s n ↦
        rw (n, backlink_key p ps s h) (add_properties-last ps added (is_keyed-tail p ps h))
  ]

  add_properties-named :
      (ps : List Declared) (added : List CoreProperty)
      → all_named added ≡ true
      → all_named (add_properties D ps added) ≡ true
  unfolding add_properties
  add_properties-named [] added h = h
  add_properties-named (p ∷ ps) added h = elim (Bool-cases (bytes_eq (core_property D p).name [])) [
    | inl e ↦ rw (e) (add_properties-named ps added h)
    | inr e ↦ rw (e) (
        add_properties-named ps (added ++ core_property D p ∷ [])
          (all_named-append added (core_property D p) h e))
  ]

  -- When core makes properties and object schemas that are blank, and every property of a struct
  -- that is a primary key has a name and is not a backlink, the primary key of the schema that
  -- core is given is the name of the last of its properties that is primary, or empty when none
  -- is, and each of its properties has a name.
  pub to_core_schema-primary_key :
      (name : Bytes) (t : ObjectType) (ps : List Declared)
      → is_keyed ps ≡ true
      → let s = to_core_schema D (make_schema name t ps) in
        (s.primary_key ≡ last_primary_of [] s.persisted_properties)
        × (all_named s.persisted_properties ≡ true)
  unfolding to_core_schema make_schema
  to_core_schema-primary_key name t ps h = (
    elim (Bool-cases (has_primary_key ps)) [
      | inl e ↦
          rw (e, do_apply_name-names ps [] [], L.no_properties) (sym (add_properties-last ps [] h))
      | inr e ↦
          rw (e, L.no_key, L.no_properties)
            (sym (add_properties-last ps [] h ∙ has_primary_key-last ps [] e))
    ],
    rw (L.no_properties) (add_properties-named ps [] refl),
  )
