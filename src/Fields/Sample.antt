-- ===== src/Fields/Sample.antt =====
-- A core whose numbers are natural, and whose objects are their columns; a file of such objects,
-- which are numbered.
use barq_native.Prelude.{
  ℕ, suc, ◌≡◌, ◌≢◌, refl, ap, Bool, true, false, ◌&&◌, Option, none, some, List, [], ◌∷◌, ◌==◌,
  if◌then◌else◌, arith,
}
use barq_native.Prelude.Int.{ℤ, pos, pos_part}
use barq_native.Prelude.Bytes.{Bytes}
use barq_native.Query.{ColKey}
use barq_native.Fields.{
  Scalar, int64, double, float, boolean, text, uuid, object_id, decimal128, binary, time_point,
  enumeration, plain, optional, primary_key, bits8, CoreTypes, Internal, CoreFields,
}
use barq_native.Fields.Conversions.{PrintsItsValues}
use barq_native.Fields.Structs.{IsObject}
use barq_native.Fields.Stored.{StructMember, CoreObjects, PutsObjects, Struct}

abbrev pub types : CoreTypes
types = record {
  Double = ℕ;
  Float = ℕ;
  Decimal = ℕ;
  Instant = ℕ;
  uuid_to_string = λ v. v;
  uuid_from = λ v. some v;
  object_id_to_string = λ v. v;
  object_id_from = λ v. some v;
  decimal_to_string = λ v. v ∷ [];
  decimal_from = λ v. elim v [ [] ↦ none | d ∷ ds ↦ some d ];
  timestamp_from = λ v. (pos v, pos 0);
  get_time_point = λ t. pos_part t.0;
}

pub types-PrintsItsValues : PrintsItsValues types
types-PrintsItsValues = record {
  uuid_from-to_string = λ v h. refl;
  object_id_from-to_string = λ v h. refl;
  time_point_from = λ v. refl;
}

pub data Cell : Type 0 where
  empty_cell : Cell
  number : ℕ → Cell
  flag : Bool → Cell
  bytes : Bytes → Cell
  instant : ℤ → ℤ → Cell

abbrev to_cell : (t : Scalar) → Internal types t → Cell
to_cell int64 v = number v
to_cell double v = number v
to_cell float v = number v
to_cell boolean v = flag v
to_cell text v = bytes v
to_cell uuid v = bytes v
to_cell object_id v = bytes v
to_cell decimal128 v = number v
to_cell binary v = bytes v
to_cell time_point v = instant v.0 v.1
to_cell (enumeration signed w) v = number v

abbrev to_number : Cell → ℕ
to_number (number v) = v
to_number _ = 0

abbrev to_flag : Cell → Bool
to_flag (flag v) = v
to_flag _ = false

abbrev to_bytes : Cell → Bytes
to_bytes (bytes v) = v
to_bytes _ = []

abbrev to_instant : Cell → ℤ × ℤ
to_instant (instant s n) = (s, n)
to_instant _ = (pos 0, pos 0)

abbrev from_cell : (t : Scalar) → Cell → Internal types t
from_cell int64 c = to_number c
from_cell double c = to_number c
from_cell float c = to_number c
from_cell boolean c = to_flag c
from_cell text c = to_bytes c
from_cell uuid c = to_bytes c
from_cell object_id c = to_bytes c
from_cell decimal128 c = to_number c
from_cell binary c = to_bytes c
from_cell time_point c = to_instant c
from_cell (enumeration signed w) c = to_number c

from_cell-to_cell : (t : Scalar) (v : Internal types t) → from_cell t (to_cell t v) ≡ v
from_cell-to_cell int64 v = refl
from_cell-to_cell t v = refl

abbrev is_empty_cell : Cell → Bool
is_empty_cell empty_cell = true
is_empty_cell _ = false

abbrev put : ColKey → Cell → (ColKey → Cell) → ColKey → Cell
put key c obj k = if k == key then c else obj k

put-at : (key : ColKey) (c : Cell) (obj : ColKey → Cell) → put key c obj key ≡ c
put-at key c obj = ground arith

put-other : (key k : ColKey) (c : Cell) (obj : ColKey → Cell) → k ≢ key → put key c obj k ≡ obj k
put-other key k c obj d = ground arith

not-is_empty_cell : (t : Scalar) (v : Internal types t) → is_empty_cell (to_cell t v) ≡ false
not-is_empty_cell int64 v = refl
not-is_empty_cell t v = refl

abbrev pub fields : CoreFields types
fields = record {
  Obj = ColKey → Cell;
  set = λ t key v obj. put key (to_cell t v) obj;
  get = λ t key obj. from_cell t (obj key);
  set_null = λ key obj. put key empty_cell obj;
  is_null = λ key obj. is_empty_cell (obj key);
}

pub fields-IsObject : IsObject types fields
fields-IsObject = record {
  is_null-set = λ t key v obj. rw (put-at key (to_cell t v) obj) (not-is_empty_cell t v);
  get-set = λ t key v obj. rw (put-at key (to_cell t v) obj) (from_cell-to_cell t v);
  is_null-set_null = λ key obj. rw (put-at key empty_cell obj) refl;
  is_null-other = λ t key k v obj d. ap is_empty_cell (put-other key k (to_cell t v) obj d);
  get-other = λ t u key k v obj d. ap (from_cell u) (put-other key k (to_cell t v) obj d);
  is_null-set_null_other = λ key k obj d. ap is_empty_cell (put-other key k empty_cell obj d);
  get-set_null_other = λ u key k obj d. ap (from_cell u) (put-other key k empty_cell obj d);
}

-- Objects with their links, the entries of a dictionary, and whether the objects 0 and 1 are in a set
pub record ObjectFile : Type 0 where
  pub next : ℕ
  pub objects : ℕ → ColKey → Cell
  pub links : ℕ → ColKey → Option ℕ
  pub entries : Bytes → Option (Option ℕ)
  pub members : Bool × Bool

abbrev pub put_link : ℕ → ColKey → Option ℕ → ObjectFile → ObjectFile
put_link obj key link db = record db {
  links = λ o k. if (o == obj) && (k == key) then link else db.links o k;
}

abbrev fresh : ObjectFile → ObjectFile × ℕ
fresh db = (record db { next = suc db.next }, db.next)

abbrev put_object : ℕ → (ColKey → Cell) → ObjectFile → ObjectFile
put_object obj written db = record db { objects = λ o. if o == obj then written else db.objects o }

abbrev pub objects : CoreObjects types fields
objects = record {
  Db = ObjectFile;
  Key = ℕ;
  Pk = ℕ;
  equal_keys = ◌==◌;
  create_object_with_primary_key = λ pk db. (db, pk);
  create_object = fresh;
  create_and_set_linked_object =
      λ obj key db. (put_link obj key (some db.next) (fresh db).0, db.next);
  linked_object = λ obj key db. db.links obj key;
  set = λ obj key other db. put_link obj key (some other) db;
  set_null = λ obj key db. put_link obj key none db;
  object = λ obj db. db.objects obj;
  put = put_object;
  column_in = λ obj key db. some key;
}

pub objects-PutsObjects : PutsObjects types fields objects
objects-PutsObjects obj written db = ground arith

pub links-put_link :
    (obj : ℕ) (key : ColKey) (link : Option ℕ) (db : ObjectFile)
    → (put_link obj key link db).links obj key ≡ link
links-put_link obj key link db = ground arith

-- A struct of a number, which is its key, a text that may be absent, and an enum
abbrev pub dog : List StructMember
dog =
    record { key = 0; type = primary_key (plain int64) }
    ∷ record { key = 1; type = optional text }
    ∷ record { key = 2; type = plain (enumeration true bits8) }
    ∷ []

abbrev pub rex : Struct types fields dog
rex = (1, (some (82 ∷ []), (255, tt)))

-- The objects are dogs with the number 9.
abbrev pub kennel : ObjectFile
kennel = record {
  next = 2;
  objects = λ obj k. number 9;
  links = λ obj key. none;
  entries = λ k. none;
  members = (true, false);
}
