-- ===== src/Database/Declared.antt =====
-- The indexes of a table to which what was missing is added: each is as declared.
use barq_native.Prelude.{ℕ, ◌≡◌, ◌≢◌, refl, sym, ap, ◌∙◌, true, false, ◌==◌, some, List, [], arith}
use barq_native.Query.{ColKey}
use barq_native.Database.{
  Metric, inner_product, l2, cosine, Encoding, float32, sq8, IndexConfig, equal_metrics,
  equal_encodings, Property, Entry, differs, collect_missing_vector_index, collect_all,
}
use barq_native.Database.Indexes.{
  Indexes, persisted, with_entry, with_entries, IsAsDeclared, AllDeclared, all_nil, all_plain,
  all_vector, Collected, nothing, plain, kept, made, Apart, apart_nil, apart_cons, DistinctColumns,
  distinct_nil, distinct_cons, Agrees, agrees_nil, agrees_cons,
}

with_entry_other :
    (threads : ℕ) (entry : Entry) (k : ColKey) (table : Indexes)
    → k ≢ entry.0
    → with_entry threads entry table k ≡ table k
with_entry_other threads entry k table h = ground arith

with_entry_same :
    (threads : ℕ) (entry : Entry) (table : Indexes)
    → with_entry threads entry table entry.0 ≡ some (persisted threads entry.1)
with_entry_same threads entry table = ground arith

Agrees-with_entry :
    (threads : ℕ) (entry : Entry) {g table : Indexes} {ps : List Property}
    → Apart entry.0 ps
    → Agrees g table ps
    → Agrees (with_entry threads entry g) table ps
Agrees-with_entry threads entry apart_nil agrees_nil = agrees_nil
Agrees-with_entry threads entry {g} (apart_cons {p} d apart) (agrees_cons e agrees) =
    agrees_cons (with_entry_other threads entry p.col g d ∙ e)
      (Agrees-with_entry threads entry apart agrees)

with_entries-Apart :
    (threads : ℕ) (k : ColKey) (g : Indexes) {table : Indexes} {ps : List Property}
    {out : List Entry}
    → Apart k ps
    → Collected table ps out
    → with_entries threads out g k ≡ g k
with_entries-Apart threads k g apart_nil nothing = refl
with_entries-Apart threads k g (apart_cons d apart) (plain q c) =
    with_entries-Apart threads k g apart c
with_entries-Apart threads k g (apart_cons d apart) (kept q t e s c) =
    with_entries-Apart threads k g apart c
with_entries-Apart threads k g (apart_cons {p} d apart) (made {cfg = cfg} q c) =
    with_entries-Apart threads k (with_entry threads (p.col, cfg) g) apart c
    ∙ with_entry_other threads (p.col, cfg) k g (λ e. d (sym e))

equal_metrics_sound : (a b : Metric) → equal_metrics a b ≡ true → a ≡ b
equal_metrics_sound inner_product inner_product h = refl
equal_metrics_sound l2 l2 h = refl
equal_metrics_sound cosine cosine h = refl
equal_metrics_sound _ _ h = cc

equal_encodings_sound : (a b : Encoding) → equal_encodings a b ≡ true → a ≡ b
equal_encodings_sound float32 float32 h = refl
equal_encodings_sound sq8 sq8 h = refl
equal_encodings_sound _ _ h = cc

equal_metrics_self : (a : Metric) → equal_metrics a a ≡ true
equal_metrics_self inner_product = refl
equal_metrics_self l2 = refl
equal_metrics_self cosine = refl

equal_encodings_self : (a : Encoding) → equal_encodings a a ≡ true
equal_encodings_self float32 = refl
equal_encodings_self sq8 = refl

-- The tests of the code find exactly the indexes that are as declared.
differs-IsAsDeclared :
    (cfg existing : IndexConfig)
    → differs existing cfg ≡ false
    → (existing.ef_search == cfg.ef_search) ≡ true
    → IsAsDeclared cfg existing
unfolding differs
differs-IsAsDeclared cfg existing d s = record {
  metric = equal_metrics_sound existing.metric cfg.metric (ground arith);
  encoding = equal_encodings_sound existing.encoding cfg.encoding (ground arith);
  dimensions = ground arith;
  m = ground arith;
  ef_construction = ground arith;
  ef_search = ground arith;
}

IsAsDeclared-same :
    (cfg existing : IndexConfig)
    → IsAsDeclared cfg existing
    → (differs existing cfg ≡ false) × ((existing.ef_search == cfg.ef_search) ≡ true)
unfolding differs
IsAsDeclared-same cfg existing h = (
  ground (
    arith,
    ap (λ x. equal_metrics x cfg.metric) h.metric ∙ equal_metrics_self cfg.metric,
    ap (λ x. equal_encodings x cfg.encoding) h.encoding ∙ equal_encodings_self cfg.encoding,
    h.dimensions,
    h.m,
    h.ef_construction,
  ),
  ground (arith, h.ef_search),
)

-- Every declared index is there when the entries that were collected are there.
pub Collected-AllDeclared :
    (threads : ℕ) {table : Indexes} {ps : List Property} {out : List Entry} (g : Indexes)
    → DistinctColumns ps
    → Agrees g table ps
    → Collected table ps out
    → AllDeclared (with_entries threads out g) ps
Collected-AllDeclared threads g distinct_nil agrees_nil nothing = all_nil
Collected-AllDeclared threads g (distinct_cons apart ds) (agrees_cons e agrees) (plain q c) =
    all_plain q (Collected-AllDeclared threads g ds agrees c)
Collected-AllDeclared threads g (distinct_cons {p} apart ds) (agrees_cons e agrees)
      (kept {cfg = cfg} {existing = existing} q t d s c) =
    all_vector q (with_entries-Apart threads p.col g apart c ∙ e ∙ t)
      (differs-IsAsDeclared cfg existing d s) (Collected-AllDeclared threads g ds agrees c)
Collected-AllDeclared threads g (distinct_cons {p} apart ds) (agrees_cons e agrees)
      (made {cfg = cfg} q c) =
    let g' = with_entry threads (p.col, cfg) g in
    all_vector q
      (with_entries-Apart threads p.col g' apart c ∙ with_entry_same threads (p.col, cfg) g)
      (record {
        metric = refl;
        encoding = refl;
        dimensions = refl;
        m = refl;
        ef_construction = refl;
        ef_search = refl;
      })
      (Collected-AllDeclared threads g' ds (Agrees-with_entry threads (p.col, cfg) apart agrees) c)

-- Nothing is missing when every declared index is there.
pub AllDeclared-collect_all :
    {table : Indexes} {ps : List Property}
    → AllDeclared table ps
    → collect_all table ps [] ≡ some []
unfolding collect_all collect_missing_vector_index
AllDeclared-collect_all all_nil = refl
AllDeclared-collect_all (all_plain q all) =
    rw (collect_missing_vector_index, q) (AllDeclared-collect_all all)
AllDeclared-collect_all (all_vector {cfg = cfg} {existing = existing} q t h all) =
    let (d, s) = IsAsDeclared-same cfg existing h in
    rw (collect_missing_vector_index, q, t, d, s) (AllDeclared-collect_all all)
