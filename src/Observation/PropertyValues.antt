-- ===== src/Observation/PropertyValues.antt =====
-- property_value_for_name of include/barq_native/schema.hpp, by the order of the properties.
use barq_native.Prelude.{◌≡◌, refl, true, false, List, [], ◌∷◌, ◌++◌, arith}
use barq_native.Prelude.Bytes.{Bytes, bytes_eq, bytes_eq_refl}
use barq_native.Observation.{Observed, Property, is_collection, property_value_for_name}

module _ (T : Observed) where
  open T use {Object, monostate}

  -- No property of the list has this name.
  abbrev pub IsUnnamed : Bytes → List (Property T) → Type 0
  IsUnnamed name [] = Unit
  IsUnnamed name (p ∷ ps) = (bytes_eq name p.name ≡ false) × IsUnnamed name ps

  -- No property of the list is a list, a dictionary or a set.
  abbrev pub IsPlain : List (Property T) → Type 0
  IsPlain [] = Unit
  IsPlain (p ∷ ps) = (is_collection T p ≡ false) × IsPlain ps

  -- A property that is no collection, with none before it and no earlier property of its name, is
  -- read by its member, whatever follows it in the schema.
  property_value_for_name-member :
      (ps : List (Property T)) (p : Property T) (qs : List (Property T)) (object : Object)
      → IsPlain ps
      → IsUnnamed p.name ps
      → is_collection T p ≡ false
      → property_value_for_name T (ps ++ p ∷ qs) p.name object true ≡ p.value object
  unfolding property_value_for_name
  property_value_for_name-member [] p qs object plain unnamed c = rw (c, bytes_eq_refl p.name) refl
  property_value_for_name-member (q ∷ ps) p qs object (a, plain) (b, unnamed) c =
      rw (a, b) (property_value_for_name-member ps p qs object plain unnamed c)

  -- With a collection in the schema, every name that is not that of a property before it is read
  -- as the empty variant, also the name of a property after it that is no collection.
  property_value_for_name-collection :
      (ps : List (Property T)) (c : Property T) (qs : List (Property T)) (name : Bytes)
      (object : Object)
      → IsUnnamed name ps
      → is_collection T c ≡ true
      → property_value_for_name T (ps ++ c ∷ qs) name object true ≡ monostate
  unfolding property_value_for_name
  property_value_for_name-collection [] c qs name object unnamed k = rw k refl
  property_value_for_name-collection (p ∷ ps) c qs name object (b, unnamed) k =
      ground (arith, b, property_value_for_name-collection ps c qs name object unnamed k)
