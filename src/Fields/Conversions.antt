-- ===== src/Fields/Conversions.antt =====
-- What is read back of a value that is stored.
use barq_native.Prelude.{
  ℕ, suc, ◌+◌, ◌%◌, ◌-◌, ◌^◌, ◌<◌, ◌≡◌, refl, ap, subst, ◌∙◌, Bool, ◌&&◌, leb, Bool-cases, inl, inr,
  some, [], ◌∷◌, ◌++◌, append_assoc, length, get_elem?-append, length-append, arith,
}
use barq_native.Prelude.Bytes.{Bytes}
use barq_native.Fields.{
  Width, bits8, bits16, bits32, bits64, modulus, sign_bit, Scalar, uuid, object_id, decimal128,
  binary, time_point, enumeration, CoreTypes, Cpp, Internal, enum_to_int64, enum_from_int64,
  bytes_from, to_vector, serialize, deserialize,
}

small : (w : Width) (v : ℕ) → v < modulus w → v % modulus w ≡ v
small bits8 v h = omega arith
small bits16 v h = omega arith
small bits32 v h = omega arith
small bits64 v h = omega arith

wrapped : (w : Width) (v : ℕ) → v < modulus w → (v + (2 ^ 64 - modulus w)) % modulus w ≡ v
wrapped bits8 v h = omega arith
wrapped bits16 v h = omega arith
wrapped bits32 v h = omega arith
wrapped bits64 v h = omega arith

enum_from_int64-enum_to_int64 :
    (signed : Bool) (w : Width) (v : ℕ)
    → v < modulus w
    → enum_from_int64 w (enum_to_int64 signed w v) ≡ v
unfolding enum_from_int64 enum_to_int64
enum_from_int64-enum_to_int64 signed w v h = elim (Bool-cases (signed && leb (sign_bit w) v)) [
  | inr b ↦ rw (b) (small w v h)
  | inl b ↦ rw (b) (wrapped w v h)
]

-- The rounds that are left copy the bytes that are left.
bytes_from-rest :
    (done rest : Bytes) → bytes_from (length rest) (length done) (done ++ rest) ≡ some rest
unfolding bytes_from
bytes_from-rest done [] = refl
bytes_from-rest done (b ∷ rest) =
    let m_data = done ++ b ∷ rest in
    let next : bytes_from (length rest) (suc (length done)) m_data ≡ some rest =
      subst (λ n. bytes_from (length rest) n m_data ≡ some rest)
        (length-append done (b ∷ []) ∙ omega arith)
        (subst (λ d. bytes_from (length rest) (length (done ++ b ∷ [])) d ≡ some rest)
          (append_assoc done (b ∷ []) rest) (bytes_from-rest (done ++ b ∷ []) rest)) in
    rw (get_elem?-append done b rest, next) refl

module _ (C : CoreTypes) where
  -- The documented behaviour: what is printed of a UUID or an ObjectId is parsed as it, and a time
  -- point is converted to a Timestamp and back.
  pub record PrintsItsValues : Type 0 where
    pub uuid_from-to_string :
        (v : Bytes) → length v ≡ 16 → C.uuid_from (C.uuid_to_string v) ≡ some v
    pub object_id_from-to_string :
        (v : Bytes) → length v ≡ 12 → C.object_id_from (C.object_id_to_string v) ≡ some v
    pub time_point_from : (v : C.Instant) → C.get_time_point (C.timestamp_from v) ≡ v

  -- The values that a type has; of a decimal, that its text is parsed as it
  abbrev pub IsValue : (t : Scalar) → Cpp C t → Type 0
  IsValue uuid v = length v ≡ 16
  IsValue object_id v = length v ≡ 12
  IsValue decimal128 v = C.decimal_from (C.decimal_to_string v) ≡ some v
  IsValue (enumeration signed w) v = v < modulus w
  IsValue t v = Unit

  -- A value is stored, and what is stored is read as the value.
  pub record Stores (t : Scalar) (v : Cpp C t) : Type 0 where
    pub stored : Internal C t
    pub written : serialize C t v ≡ some stored
    pub read : deserialize C t stored ≡ some v

  module _ (L : PrintsItsValues) where
    pub serialize-Stores : (t : Scalar) (v : Cpp C t) → IsValue t v → Stores t v
    unfolding serialize deserialize to_vector
    serialize-Stores uuid v h = record {
      stored = v;
      written = L.uuid_from-to_string v h;
      read = refl;
    }
    serialize-Stores object_id v h = record {
      stored = v;
      written = L.object_id_from-to_string v h;
      read = refl;
    }
    serialize-Stores decimal128 v h = record { stored = v; written = h; read = refl }
    serialize-Stores binary v h = record { stored = v; written = refl; read = bytes_from-rest [] v }
    serialize-Stores time_point v h = record {
      stored = C.timestamp_from v;
      written = refl;
      read = ap some (L.time_point_from v);
    }
    serialize-Stores (enumeration signed w) v h = record {
      stored = enum_to_int64 signed w v;
      written = refl;
      read = ap some (enum_from_int64-enum_to_int64 signed w v h);
    }
    serialize-Stores t v h = record { stored = v; written = refl; read = refl }

  -- Whatever is stored is read.
  pub deserialize-total :
      (t : Scalar) (v : Internal C t) → (x : Cpp C t) × (deserialize C t v ≡ some x)
  unfolding deserialize to_vector
  deserialize-total binary v = (v, bytes_from-rest [] v)
  deserialize-total t v = (_, refl)
