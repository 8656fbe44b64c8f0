-- ===== src/Configuration/Opening.antt =====
-- include/barq_native/db.hpp: open and the constructor of db, over the constructor of bridge::barq
-- and the reconcilers of the vector indexes. The files of the process, and the file that is open,
-- are a state of core.
use barq_native.Prelude.{
  ℕ, ◌<◌, ◌≡◌, ◌⊎◌, refl, ap, ◌∙◌, Bool, true, false, not, ◌&&◌, Option, none, some, List,
  if◌then◌else◌, arith, Bool-cases, inl, inr,
}
use barq_native.Prelude.Bytes.{Bytes}
use barq_native.Database.{CoreFile, Property, CoreIndexes, reconcile_vector_indexes}
use barq_native.Configuration.{
  Given, SchemaMode, immutable, read_only, FileConfig, Memory, copy, set, set_schema,
}

-- What the messages of core go to: its own logger, that of barq.cpp which drops them, or one of
-- the caller
pub data DefaultLogger : Type 0 where
  core_logger null_logger : DefaultLogger
  logger_of_caller : ℕ → DefaultLogger

pub record Process : Type 0 where
  pub initialized : Bool
  pub default_logger : DefaultLogger

-- The block of the constructor barq(const config&) before it opens the file
unfoldable pub initialize : Process → Process
initialize w =
    if not w.initialized then record { initialized = true; default_logger = null_logger } else w

-- The modes in which db does not build the indexes
abbrev pub writes : SchemaMode → Bool
writes immutable = false
writes read_only = false
writes _ = true

never_writes : (mode : SchemaMode) → (mode ≡ immutable) ⊎ (mode ≡ read_only) → writes mode ≡ false
never_writes mode (inl e) = ap writes e
never_writes mode (inr e) = ap writes e

abbrev finished : Option (Unit {0}) → Bool
finished none = false
finished (some u) = true

module _ (G : Given) (F : CoreFile) (X : CoreIndexes F)
    (get_shared_barq : FileConfig G → F.State → F.State × Bool) where
  open G use {Schema}

  pub record System : Type 0 where
    pub memory : Memory G
    pub process : Process
    pub file : F.State

  abbrev pub given_schema : Schema → ℕ → Memory G → Memory G
  given_schema schemas p mem = elim (mem.files p).schema [
    | none ↦ (set G (set_schema schemas) p mem).0
    | some s ↦ mem
  ]

  -- The constructor of db once its configuration has a schema. The Bool is false when it throws.
  unfoldable pub open_file : List (Bytes × List Property) → ℕ → System → System × Bool
  unfolding initialize
  open_file reconcilers p sys =
      let config = sys.memory.files p in
      let (file, opened) = get_shared_barq config sys.file in
      let (reconciled, done) = reconcile_vector_indexes F X reconcilers file in
      let writable = writes config.schema_mode && not (F.is_frozen file) in
      let process = initialize sys.process in
      if opened && writable
      then (record sys { process = process; file = reconciled }, finished done)
      else (record sys { process = process; file = file }, opened)

  -- The constructor of db with the configuration at p, the schemata of all declared types, and
  -- their reconcilers
  unfoldable pub construct : Schema → List (Bytes × List Property) → ℕ → System → System × Bool
  unfolding open_file set
  construct schemas reconcilers p sys =
      open_file reconcilers p (record sys { memory = given_schema schemas p sys.memory })

  -- The configuration that open gives to db, and the memory then
  unfoldable pub prepare : Bool → Schema → ℕ → Memory G → ℕ × Memory G
  unfolding copy set
  prepare generated schema p mem =
      let (config_copy, mem₁) = copy G generated p mem in
      copy G generated config_copy (set G (set_schema schema) config_copy mem₁).0

  -- open, with the schema of the types that it names, or of all declared types
  unfoldable pub open_db :
      Bool → Schema → Schema → List (Bytes × List Property) → ℕ → System → System × Bool
  unfolding construct prepare
  open_db generated schemas schema reconcilers p sys =
      let (config, memory) = prepare generated schema p sys.memory in
      construct schemas reconcilers config (record sys { memory = memory })

  abbrev with_schema : Schema → FileConfig G → FileConfig G
  with_schema schema c = record c { schema = some schema }

  prepare-with_schema :
      (generated : Bool) (schema : Schema) (p : ℕ) (mem : Memory G)
      → (prepare generated schema p mem).1.files (prepare generated schema p mem).0
        ≡ with_schema schema (mem.files p)
  unfolding prepare copy set
  prepare-with_schema true schema p mem = ground arith
  prepare-with_schema false schema p mem = ground arith

  prepare-caller :
      (generated : Bool) (schema : Schema) (p : ℕ) (mem : Memory G)
      → p < mem.next
      → (prepare generated schema p mem).1.files p
        ≡ (if generated then mem.files p else with_schema schema (mem.files p))
  unfolding prepare copy set
  prepare-caller true schema p mem h = ground arith
  prepare-caller false schema p mem h = ground arith

  construct-open_file :
      (schemas schema : Schema) (reconcilers : List (Bytes × List Property)) (p : ℕ) (sys : System)
      → (sys.memory.files p).schema ≡ some schema
      → construct schemas reconcilers p sys ≡ open_file reconcilers p sys
  unfolding construct
  construct-open_file schemas schema reconcilers p sys e =
      let same : given_schema schemas p sys.memory ≡ sys.memory = rw (given_schema, e) refl in
      ap (λ mem. open_file reconcilers p (record sys { memory = mem })) same

  open_file-memory :
      (reconcilers : List (Bytes × List Property)) (p : ℕ) (sys : System)
      → (open_file reconcilers p sys).0.memory ≡ sys.memory
  unfolding open_file
  open_file-memory reconcilers p sys = ground arith

  -- What core has, and whether the call returned
  abbrev pub opened_file : System × Bool → F.State × Bool
  opened_file r = (r.0.file, r.1)

  open_file-read_only :
      (reconcilers : List (Bytes × List Property)) (p : ℕ) (sys : System)
      → writes (sys.memory.files p).schema_mode ≡ false
      → opened_file (open_file reconcilers p sys) ≡ get_shared_barq (sys.memory.files p) sys.file
  unfolding open_file
  open_file-read_only reconcilers p sys m =
      elim (Bool-cases (get_shared_barq (sys.memory.files p) sys.file).1) [
        | inl b ↦ rw (open_file, b, m) refl
        | inr b ↦ rw (open_file, b) refl
      ]

  prepared :
      (generated : Bool) (schemas schema : Schema) (reconcilers : List (Bytes × List Property))
      (p : ℕ) (sys : System)
      → open_db generated schemas schema reconcilers p sys
        ≡ open_file reconcilers
            (prepare generated schema p sys.memory).0
            (record sys { memory = (prepare generated schema p sys.memory).1 })
  unfolding open_db
  prepared generated schemas schema reconcilers p sys =
      construct-open_file schemas schema reconcilers (prepare generated schema p sys.memory).0
        (record sys { memory = (prepare generated schema p sys.memory).1 })
        (ap (λ c. c.schema) (prepare-with_schema generated schema p sys.memory))

  -- Over any core, open leaves the configuration that the caller gives as it was with generated
  -- bridge types, also when it throws; without them it leaves the schema that it opened the file
  -- with in it, and the rest as it was.
  pub open_db-config :
      (generated : Bool) (schemas schema : Schema) (reconcilers : List (Bytes × List Property))
      (p : ℕ) (sys : System)
      → p < sys.memory.next
      → (open_db generated schemas schema reconcilers p sys).0.memory.files p ≡ (
          if generated
          then sys.memory.files p
          else record (sys.memory.files p) { schema = some schema })
  unfolding open_db
  open_db-config generated schemas schema reconcilers p sys h =
      ap (λ r. r.0.memory.files p) (prepared generated schemas schema reconcilers p sys)
      ∙ ap (λ mem. mem.files p)
          (open_file-memory reconcilers (prepare generated schema p sys.memory).0
            (record sys { memory = (prepare generated schema p sys.memory).1 }))
      ∙ prepare-caller generated schema p sys.memory h

  -- Over any core, open of a configuration whose mode is immutable or read_only leaves the file
  -- as core opened it, with the schema of the types and the rest from the configuration, and
  -- throws exactly when core does: no vector index is built.
  pub open_db-read_only :
      (generated : Bool) (schemas schema : Schema) (reconcilers : List (Bytes × List Property))
      (p : ℕ) (sys : System)
      → ((sys.memory.files p).schema_mode ≡ immutable)
        ⊎ ((sys.memory.files p).schema_mode ≡ read_only)
      → opened_file (open_db generated schemas schema reconcilers p sys)
        ≡ get_shared_barq (record (sys.memory.files p) { schema = some schema }) sys.file
  unfolding open_db
  open_db-read_only generated schemas schema reconcilers p sys m =
      let made = prepare-with_schema generated schema p sys.memory in
      ap opened_file (prepared generated schemas schema reconcilers p sys)
      ∙ open_file-read_only reconcilers (prepare generated schema p sys.memory).0
          (record sys { memory = (prepare generated schema p sys.memory).1 })
          (ap (λ c. writes c.schema_mode) made ∙ never_writes _ m)
      ∙ ap (λ c. get_shared_barq c sys.file) made
