-- ===== src/Schema/Lookup.antt =====
-- The lookup of the members of a schema by their pointers, against the properties that core is given.
use barq_native.Prelude.{
  ℕ, ◌≡◌, refl, sym, ◌∙◌, Bool, true, false, not, ◌&&◌, Bool-cases, inl, inr, Option, none, some,
  List, [], ◌∷◌, ◌++◌, arith, ◌==◌, if◌then◌else◌,
}
use barq_native.Prelude.Bytes.{Bytes, bytes_eq, bytes_eq_refl}
use barq_native.Schema.{
  Declared, CoreProperty, CoreDefaults, ObjectType, core_property, make_schema, add_properties,
  to_core_schema, name_for_from, name_for_property,
}
use barq_native.Schema.Keys.{IsBlank, is_stored, Kept, core_property-Kept}

-- The first property of core of that name
abbrev pub find_named : Bytes → List CoreProperty → Option CoreProperty
find_named name [] = none
find_named name (q ∷ qs) =
    let rest = find_named name qs in if bytes_eq name q.name then some q else rest

-- A member that is none of `ps`
abbrev pub names_none : Bytes → List Declared → Bool
names_none name [] = true
names_none name (p ∷ ps) = not (bytes_eq name p.name) && names_none name ps

abbrev pub points_to_none : ℕ → List Declared → Bool
points_to_none ptr [] = true
points_to_none ptr (p ∷ ps) = not (ptr == p.ptr) && points_to_none ptr ps

name_for_from-pointer :
    (before after : List Declared) (p : Declared)
    → points_to_none p.ptr before ≡ true
    → name_for_from p.ptr (before ++ p ∷ after) ≡ p.name
unfolding name_for_from
name_for_from-pointer [] after p h = ground arith
name_for_from-pointer (q ∷ before) after p h = elim (Bool-cases (p.ptr == q.ptr)) [
  | inl e ↦ ground arith
  | inr e ↦ ground (arith, name_for_from-pointer before after p)
]

find_named-there :
    (name : Bytes) (qs : List CoreProperty) (q r : CoreProperty)
    → find_named name qs ≡ some q
    → find_named name (qs ++ r ∷ []) ≡ some q
find_named-there name [] q r h = cc
find_named-there name (x ∷ qs) q r h = elim (Bool-cases (bytes_eq name x.name)) [
  | inl e ↦ rw (e) (sym (rw (find_named, e) refl) ∙ h)
  | inr e ↦ ground (arith, find_named-there name qs q r)
]

find_named-new :
    (name : Bytes) (qs : List CoreProperty) (r : CoreProperty)
    → find_named name qs ≡ none
    → find_named name (qs ++ r ∷ []) ≡ (if bytes_eq name r.name then some r else none)
find_named-new name [] r h = refl
find_named-new name (x ∷ qs) r h = elim (Bool-cases (bytes_eq name x.name)) [
  | inl e ↦ ground arith
  | inr e ↦ ground (arith, find_named-new name qs r)
]

tail_unnamed :
    (name : Bytes) (p : Declared) (ps : List Declared)
    → names_none name (p ∷ ps) ≡ true
    → (bytes_eq name p.name ≡ false) × (names_none name ps ≡ true)
tail_unnamed name p ps h = (ground arith, ground arith)

module _ (D : CoreDefaults) (L : IsBlank D) where
  find_named-kept :
      (name : Bytes) (ps : List Declared) (added : List CoreProperty) (q : CoreProperty)
      → find_named name added ≡ some q
      → find_named name (add_properties D ps added) ≡ some q
  unfolding add_properties
  find_named-kept name [] added q h = h
  find_named-kept name (p ∷ ps) added q h =
      elim (Bool-cases (bytes_eq (core_property D p).name [])) [
        | inl e ↦ rw (e) (find_named-kept name ps added q h)
        | inr e ↦ rw (e) (
            find_named-kept name ps (added ++ core_property D p ∷ []) q
              (find_named-there name added q (core_property D p) h))
      ]

  find_named-next :
      (after : List Declared) (p : Declared) (added : List CoreProperty)
      → is_stored p.member ≡ true
      → bytes_eq p.name [] ≡ false
      → find_named p.name added ≡ none
      → find_named p.name (add_properties D (p ∷ after) added) ≡ some (core_property D p)
  unfolding add_properties
  find_named-next after p added s named a = elim (core_property-Kept D L p) [
    | Kept.stored t n k ↦
        rw (n, named)
          (find_named-kept p.name after (added ++ core_property D p ∷ []) (core_property D p)
            (find_named-new p.name added (core_property D p) a ∙ rw (n, bytes_eq_refl p.name) refl))
    | Kept.left_out t n ↦ absurd (ground arith)
  ]

  -- A property of another name is passed by.
  find_named-passed :
      (name : Bytes) (ps : List Declared) (q : Declared) (r : CoreProperty)
      (added : List CoreProperty)
      → bytes_eq name q.name ≡ false
      → ((added' : List CoreProperty)
          → find_named name added' ≡ none
          → find_named name (add_properties D ps added') ≡ some r)
      → find_named name added ≡ none
      → find_named name (add_properties D (q ∷ ps) added) ≡ some r
  unfolding add_properties
  find_named-passed name ps q r added other next a = elim (core_property-Kept D L q) [
    | Kept.stored t n k ↦ elim (Bool-cases (bytes_eq q.name [])) [
      | inl e ↦ rw (n, e) (next added a)
      | inr e ↦
          rw (n, e)
            (next (added ++ core_property D q ∷ [])
              (find_named-new name added (core_property D q) a ∙ rw (n, other) refl))
    ]
    | Kept.left_out t n ↦ rw (n) (next added a)
  ]

  find_named-first :
      (before after : List Declared) (p : Declared) (added : List CoreProperty)
      → is_stored p.member ≡ true
      → bytes_eq p.name [] ≡ false
      → names_none p.name before ≡ true
      → find_named p.name added ≡ none
      → find_named p.name (add_properties D (before ++ p ∷ after) added) ≡ some (core_property D p)
  unfolding add_properties
  find_named-first [] after p added s named h a = find_named-next after p added s named a
  find_named-first (q ∷ before) after p added s named h a =
      let (other, others) = tail_unnamed p.name q before h in
      find_named-passed p.name (before ++ p ∷ after) q (core_property D p) added other
        (λ added' a'. find_named-first before after p added' s named others a') a

  -- When core makes properties and object schemas that are blank, for a property that is named
  -- and not a backlink, with none before it of its pointer or its name, name_for_property of its
  -- pointer is a name by which the schema that core is given has what that property is converted
  -- to.
  pub to_core_schema-name_for_property :
      (name : Bytes) (t : ObjectType) (before after : List Declared) (p : Declared)
      → is_stored p.member ≡ true
      → bytes_eq p.name [] ≡ false
      → points_to_none p.ptr before ≡ true
      → names_none p.name before ≡ true
      → let s = make_schema name t (before ++ p ∷ after) in
        find_named (name_for_property s p.ptr) (to_core_schema D s).persisted_properties
        ≡ some (core_property D p)
  unfolding name_for_property make_schema to_core_schema
  to_core_schema-name_for_property name t before after p stored named first unnamed =
      rw (name_for_from-pointer before after p first, L.no_properties)
        (find_named-first before after p [] stored named unnamed refl)
