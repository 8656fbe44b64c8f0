-- ===== src/Database/Indexes.antt =====
-- The vector indexes that are missing from a table, and that none is when they were added.
use barq_native.Prelude.{
  ℕ, ◌≡◌, ◌≢◌, refl, sym, subst, ◌∙◌, true, false, ◌==◌, Bool-cases, Option-cases, inl, inr, Option,
  none, some, >>=-eq_some, List, [], ◌∷◌, ◌++◌, append_assoc, append-nil, if◌then◌else◌,
}
use barq_native.Query.{ColKey}
use barq_native.Database.{
  IndexConfig, Property, Entry, differs, collect_missing_vector_index, collect_all,
}

-- The indexes of a table
abbrev pub Indexes : Type 0
Indexes = ColKey → Option IndexConfig

-- What is read of an index that was added with a configuration: build_threads is not persisted, and
-- reads as the same number for every index.
abbrev pub persisted : ℕ → IndexConfig → IndexConfig
persisted threads cfg = record cfg { build_threads = threads }

-- An index more
abbrev pub with_entry : ℕ → Entry → Indexes → Indexes
with_entry threads entry table j =
    if j == entry.0 then some (persisted threads entry.1) else table j

-- A table's indexes when the entries were added one after the other.
abbrev pub with_entries : ℕ → List Entry → Indexes → Indexes
with_entries threads [] table = table
with_entries threads (entry ∷ entries) table =
    with_entries threads entries (with_entry threads entry table)

-- An index is as a property declares it, in its graph and in its search beam.
pub record IsAsDeclared (cfg existing : IndexConfig) : Type 0 where
  pub metric : existing.metric ≡ cfg.metric
  pub encoding : existing.encoding ≡ cfg.encoding
  pub dimensions : existing.dimensions ≡ cfg.dimensions
  pub m : existing.m ≡ cfg.m
  pub ef_construction : existing.ef_construction ≡ cfg.ef_construction
  pub ef_search : existing.ef_search ≡ cfg.ef_search

-- Every property that declares an index has one in the table, and it is as declared.
pub data AllDeclared (table : Indexes) : List Property → Type 0 where
  all_nil : AllDeclared table []
  all_plain :
      {p : Property} {ps : List Property}
      → p.vector ≡ none
      → AllDeclared table ps
      → AllDeclared table (p ∷ ps)
  all_vector :
      {p : Property} {ps : List Property} {cfg existing : IndexConfig}
      → p.vector ≡ some cfg
      → table p.col ≡ some existing
      → IsAsDeclared cfg existing
      → AllDeclared table ps
      → AllDeclared table (p ∷ ps)

-- What collect_all finds for the properties of a table.
pub data Collected (table : Indexes) : List Property → List Entry → Type 0 where
  nothing : Collected table [] []
  plain :
      {p : Property} {ps : List Property} {out : List Entry}
      → p.vector ≡ none
      → Collected table ps out
      → Collected table (p ∷ ps) out
  kept :
      {p : Property} {ps : List Property} {out : List Entry} {cfg existing : IndexConfig}
      → p.vector ≡ some cfg
      → table p.col ≡ some existing
      → differs existing cfg ≡ false
      → (existing.ef_search == cfg.ef_search) ≡ true
      → Collected table ps out
      → Collected table (p ∷ ps) out
  made :
      {p : Property} {ps : List Property} {out : List Entry} {cfg : IndexConfig}
      → p.vector ≡ some cfg
      → Collected table ps out
      → Collected table (p ∷ ps) ((p.col, cfg) ∷ out)

-- What one property adds to the entries.
data Adds (table : Indexes) (p : Property) (out : List Entry) : List Entry → Type 0 where
  adds_none : p.vector ≡ none → Adds table p out out
  adds_nothing :
      {cfg existing : IndexConfig}
      → p.vector ≡ some cfg
      → table p.col ≡ some existing
      → differs existing cfg ≡ false
      → (existing.ef_search == cfg.ef_search) ≡ true
      → Adds table p out out
  adds_entry :
      {cfg : IndexConfig} → p.vector ≡ some cfg → Adds table p out (out ++ (p.col, cfg) ∷ [])

pub refused : {A : Type 0} {a : A} → none ≡ some a → ⊥
refused e = cc

pub same_entries : {out out' : List Entry} → some out ≡ some out' → out ≡ out'
same_entries h = cc

collect-Adds :
    (table : Indexes) (p : Property) (out out' : List Entry)
    → collect_missing_vector_index table p out ≡ some out'
    → Adds table p out out'
unfolding collect_missing_vector_index
collect-Adds table p out out' h = elim (Option-cases p.vector) [
  | inl q ↦
      subst (Adds table p out) (same_entries (sym (rw (collect_missing_vector_index, q) refl) ∙ h))
        (adds_none q)
  | inr (cfg, q) ↦ elim (Option-cases (table p.col)) [
    | inl t ↦
        subst (Adds table p out)
          (same_entries (sym (rw (collect_missing_vector_index, q, t) refl) ∙ h)) (adds_entry q)
    | inr (existing, t) ↦ elim (Bool-cases (differs existing cfg)) [
      | inl d ↦ absurd (refused (sym (rw (collect_missing_vector_index, q, t, d) refl) ∙ h))
      | inr d ↦ elim (Bool-cases (existing.ef_search == cfg.ef_search)) [
        | inl e ↦
            subst (Adds table p out)
              (same_entries (sym (rw (collect_missing_vector_index, q, t, d, e) refl) ∙ h))
              (adds_nothing q t d e)
        | inr e ↦
            subst (Adds table p out)
              (same_entries (sym (rw (collect_missing_vector_index, q, t, d, e) refl) ∙ h))
              (adds_entry q)
      ]
    ]
  ]
]

Collected-extend :
    {table : Indexes} {p : Property} {ps : List Property} {out first rest out' : List Entry}
    → Adds table p out first
    → Collected table ps rest
    → out' ≡ first ++ rest
    → (rest' : List Entry) × (out' ≡ out ++ rest') × Collected table (p ∷ ps) rest'
Collected-extend {rest = rest} (adds_none q) c e = (rest, e, plain q c)
Collected-extend {rest = rest} (adds_nothing q t d same) c e = (rest, e, kept q t d same c)
Collected-extend {p = p} {out = out} {rest = rest} (adds_entry {cfg} q) c e =
    ((p.col, cfg) ∷ rest, e ∙ append_assoc out ((p.col, cfg) ∷ []) rest, made q c)

pub collect_all-Collected :
    (table : Indexes) (ps : List Property) (out out' : List Entry)
    → collect_all table ps out ≡ some out'
    → (rest : List Entry) × (out' ≡ out ++ rest) × Collected table ps rest
unfolding collect_all
collect_all-Collected table [] out out' h =
    ([], sym (same_entries h) ∙ sym (append-nil out), nothing)
collect_all-Collected table (p ∷ ps) out out' h =
    let (first, found, others) = >>=-eq_some (collect_missing_vector_index table p out) _ h in
    let (rest, e, c) = collect_all-Collected table ps first out' others in
    Collected-extend (collect-Adds table p out first found) c e

-- Two properties of one table have two columns.
pub data Apart (k : ColKey) : List Property → Type 0 where
  apart_nil : Apart k []
  apart_cons : {p : Property} {ps : List Property} → p.col ≢ k → Apart k ps → Apart k (p ∷ ps)

pub data DistinctColumns : List Property → Type 0 where
  distinct_nil : DistinctColumns []
  distinct_cons :
      {p : Property} {ps : List Property}
      → Apart p.col ps
      → DistinctColumns ps
      → DistinctColumns (p ∷ ps)

-- A table of indexes that is another one at the columns of the properties.
pub data Agrees (g table : Indexes) : List Property → Type 0 where
  agrees_nil : Agrees g table []
  agrees_cons :
      {p : Property} {ps : List Property}
      → g p.col ≡ table p.col
      → Agrees g table ps
      → Agrees g table (p ∷ ps)

pub Agrees-self : (table : Indexes) (ps : List Property) → Agrees table table ps
Agrees-self table [] = agrees_nil
Agrees-self table (p ∷ ps) = agrees_cons refl (Agrees-self table ps)
