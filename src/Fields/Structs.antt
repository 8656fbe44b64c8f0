-- ===== src/Fields/Structs.antt =====
-- What is read of an object to which the members of a struct were written.
use barq_native.Prelude.{◌≡◌, ◌≢◌, refl, ap, ◌∙◌, true, false, none, some, List, [], ◌∷◌}
use barq_native.Query.{ColKey}
use barq_native.Fields.{
  Scalar, Field, plain, optional, primary_key, indexed, fulltext, CoreTypes, Internal, deserialize,
  CoreFields, CppField, set_scalar, accessor_set, get_optional, detach, MemberValue, assign_members,
}
use barq_native.Fields.Conversions.{PrintsItsValues, IsValue, serialize-Stores}

module _ (C : CoreTypes) (O : CoreFields C) where
  open O use {Obj, set, get, set_null, is_null}

  -- The documented behaviour of an object: a column has what was set last, or null, and other
  -- columns are as they were.
  pub record IsObject : Type 0 where
    pub is_null-set :
        (t : Scalar) (key : ColKey) (v : Internal C t) (obj : Obj)
        → is_null key (set t key v obj) ≡ false
    pub get-set :
        (t : Scalar) (key : ColKey) (v : Internal C t) (obj : Obj) → get t key (set t key v obj) ≡ v
    pub is_null-set_null : (key : ColKey) (obj : Obj) → is_null key (set_null key obj) ≡ true
    pub is_null-other :
        (t : Scalar) (key k : ColKey) (v : Internal C t) (obj : Obj)
        → k ≢ key
        → is_null k (set t key v obj) ≡ is_null k obj
    pub get-other :
        (t u : Scalar) (key k : ColKey) (v : Internal C t) (obj : Obj)
        → k ≢ key
        → get u k (set t key v obj) ≡ get u k obj
    pub is_null-set_null_other :
        (key k : ColKey) (obj : Obj) → k ≢ key → is_null k (set_null key obj) ≡ is_null k obj
    pub get-set_null_other :
        (u : Scalar) (key k : ColKey) (obj : Obj)
        → k ≢ key
        → get u k (set_null key obj) ≡ get u k obj

  -- The values that a field may have
  abbrev pub IsFieldValue : (f : Field) → CppField C O f → Type 0
  IsFieldValue (plain t) v = IsValue C t v
  IsFieldValue (optional t) none = Unit
  IsFieldValue (optional t) (some v) = IsValue C t v
  IsFieldValue (primary_key f) v = IsFieldValue f v
  IsFieldValue (indexed f) v = IsFieldValue f v
  IsFieldValue (fulltext f) v = IsFieldValue f v

  -- No member has the column k.
  abbrev pub Apart : ColKey → List (MemberValue C O) → Type 0
  Apart k [] = Unit
  Apart k (m ∷ ms) = (k ≢ m.key) × Apart k ms

  -- The members have columns of their own, and values that their types have.
  abbrev pub IsStruct : List (MemberValue C O) → Type 0
  IsStruct [] = Unit
  IsStruct (m ∷ ms) = Apart m.key ms × (IsFieldValue m.type m.value × IsStruct ms)

  -- Every member is read of the object as its value.
  abbrev pub Reads : List (MemberValue C O) → Obj → Type 0
  Reads [] obj = Unit
  Reads (m ∷ ms) obj = (detach C O m.type m.key obj ≡ some m.value) × Reads ms obj

  record Same (k : ColKey) (obj obj' : Obj) : Type 0 where
    null : is_null k obj' ≡ is_null k obj
    content : (t : Scalar) → get t k obj' ≡ get t k obj

  detach-Same :
      (f : Field) {k : ColKey} {obj obj' : Obj}
      → Same k obj obj'
      → detach C O f k obj' ≡ detach C O f k obj
  unfolding detach get_optional
  detach-Same (plain t) h = ap (deserialize C t) (h.content t)
  detach-Same (optional t) h = rw (h.null, h.content t) refl
  detach-Same (primary_key f) h = detach-Same f h
  detach-Same (indexed f) h = detach-Same f h
  detach-Same (fulltext f) h = detach-Same f h

  -- A write of a field that succeeds, is read back and leaves the other columns
  record Wrote (f : Field) (key : ColKey) (v : CppField C O f) (obj : Obj) : Type 0 where
    after : Obj
    written : accessor_set C O f key v obj ≡ some after
    read : detach C O f key after ≡ some v
    others : (k : ColKey) → k ≢ key → Same k obj after

  module _ (P : PrintsItsValues C) (L : IsObject) where
    set_scalar-others :
        (t : Scalar) (key : ColKey) (v : Internal C t) (obj : Obj) (k : ColKey)
        → k ≢ key
        → Same k obj (set t key v obj)
    set_scalar-others t key v obj k d = record {
      null = L.is_null-other t key k v obj d;
      content = λ u. L.get-other t u key k v obj d;
    }

    accessor_set-Wrote :
        (f : Field) (key : ColKey) (v : CppField C O f) (obj : Obj)
        → IsFieldValue f v
        → Wrote f key v obj
    unfolding accessor_set set_scalar detach get_optional
    accessor_set-Wrote (plain t) key v obj h =
        let s = serialize-Stores C P t v h in
        record {
          after = set t key s.stored obj;
          written = rw (s.written) refl;
          read = rw (L.get-set t key s.stored obj) s.read;
          others = set_scalar-others t key s.stored obj;
        }
    accessor_set-Wrote (optional t) key none obj h = record {
      after = set_null key obj;
      written = refl;
      read = rw (L.is_null-set_null key obj) refl;
      others = λ k d. record {
        null = L.is_null-set_null_other key k obj d;
        content = λ u. L.get-set_null_other u key k obj d;
      };
    }
    accessor_set-Wrote (optional t) key (some v) obj h =
        let s = serialize-Stores C P t v h in
        record {
          after = set t key s.stored obj;
          written = rw (s.written) refl;
          read = rw (L.is_null-set t key s.stored obj, L.get-set t key s.stored obj, s.read) refl;
          others = set_scalar-others t key s.stored obj;
        }
    accessor_set-Wrote (primary_key f) key v obj h =
        let w = accessor_set-Wrote f key v obj h in
        record { after = w.after; written = w.written; read = w.read; others = w.others }
    accessor_set-Wrote (indexed f) key v obj h =
        let w = accessor_set-Wrote f key v obj h in
        record { after = w.after; written = w.written; read = w.read; others = w.others }
    accessor_set-Wrote (fulltext f) key v obj h =
        let w = accessor_set-Wrote f key v obj h in
        record { after = w.after; written = w.written; read = w.read; others = w.others }

    record Assigned (ms : List (MemberValue C O)) (obj : Obj) : Type 0 where
      after : Obj
      written : assign_members C O ms obj ≡ some after
      reads : Reads ms after
      others : (k : ColKey) → Apart k ms → Same k obj after

    assign_members-Assigned :
        (ms : List (MemberValue C O)) (obj : Obj) → IsStruct ms → Assigned ms obj
    unfolding assign_members
    assign_members-Assigned [] obj h = record {
      after = obj;
      written = refl;
      reads = tt;
      others = λ k a. record { null = refl; content = λ t. refl };
    }
    assign_members-Assigned (m ∷ ms) obj (apart, (is_value, rest)) =
        let w = accessor_set-Wrote m.type m.key m.value obj is_value in
        let r = assign_members-Assigned ms w.after rest in
        record {
          after = r.after;
          written = rw (w.written) r.written;
          reads = (detach-Same m.type (r.others m.key apart) ∙ w.read, r.reads);
          others = λ k a. record {
            null = (r.others k a.1).null ∙ (w.others k a.0).null;
            content = λ t. (r.others k a.1).content t ∙ (w.others k a.0).content t;
          };
        }

    -- Over objects of core that meet their laws, writing the members of a struct, whose columns
    -- are distinct and whose types are any scalar types, optional or not, primary keys and
    -- indexed ones, succeeds when the values are ones of their types and the decimals are read
    -- back from their texts, and then detach of each member gives its value.
    pub assign_members-detach :
        (ms : List (MemberValue C O)) (obj : Obj)
        → IsStruct ms
        → (after : Obj) × (assign_members C O ms obj ≡ some after) × Reads ms after
    assign_members-detach ms obj h =
        let r = assign_members-Assigned ms obj h in (r.after, r.written, r.reads)
