-- ===== src/Managed/Links/Sample.antt =====
-- A small store: objects are numbered, the struct is a number, and one list of links.
use barq_native.Prelude.{
  ℕ, suc, ◌≡◌, true, false, ◌&&◌, ◌==◌, Option, none, some, List, [], if◌then◌else◌, arith,
}
use barq_native.Query.{ColKey}
use barq_native.Managed.Links.{ObjectStore, StructSchema}

pub record Database : Type 0 where
  pub next : ℕ
  pub links : ℕ → ColKey → Option ℕ
  pub fields : ℕ → ℕ
  pub items : List ℕ

abbrev pub empty : Database
empty = record { next = 0; links = λ obj key. none; fields = λ obj. 0; items = [] }

abbrev put : ℕ → ColKey → Option ℕ → Database → Database
put obj key link db = record db {
  links = λ o k. if (o == obj) && (k == key) then link else db.links o k;
}

abbrev fresh : Database → Database × ℕ
fresh db = (record db { next = suc db.next }, db.next)

abbrev pub assign_number : ℕ → ℕ → Database → Database
assign_number value obj db = record db { fields = λ o. if o == obj then value else db.fields o }

abbrev pub sample_store : ObjectStore
sample_store = record {
  Db = Database;
  Key = ℕ;
  Pk = ℕ;
  Fields = ℕ;
  equal_keys = ◌==◌;
  create_object_with_primary_key = λ pk db. (db, pk);
  create_object = fresh;
  create_and_set_linked_object =
      λ obj key db. (put obj key (some db.next) (fresh db).0, (fresh db).1);
  linked_object = λ obj key db. db.links obj key;
  set = λ obj key other db. put obj key (some other) db;
  set_null = λ obj key db. put obj key none db;
  assign_fields = assign_number;
  fields_of = λ obj db. some (db.fields obj);
  fields_as = λ obj db. some (db.fields obj);
}

abbrev pub plain_schema : StructSchema sample_store
plain_schema = record { primary_key = none; is_embedded = false }

abbrev pub embedded_schema : StructSchema sample_store
embedded_schema = record { primary_key = none; is_embedded = true }

pub put_link :
    (obj : ℕ) (key : ColKey) (link : Option ℕ) (db : Database)
    → (put obj key link db).links obj key ≡ link
put_link obj key link db = ground arith

pub fields_of_assigned :
    (value obj : ℕ) (db : Database) → some ((assign_number value obj db).fields obj) ≡ some value
fields_of_assigned value obj db = ground arith
