-- ===== src/Managed.antt =====
-- The managed fields of an object: a column key of an object in core, or of the query object that
-- prepare_for_query makes, in which case m_rbool_query points to the rbool of the predicate.
pub mod Answers
pub mod AnyValue
pub mod Embeddings
pub mod Sample
pub mod Numeric
pub mod Floating
pub mod Set
pub mod Dictionary
pub mod Lists
pub mod Links
pub mod Values
pub mod Text
pub mod Blob
pub mod DecimalField
use barq_native.Prelude.{◌≡◌, ◌≢◌, Bool, Option, none, some, ◌>>=◌}
use barq_native.Query.{QueryEngine, ColKey}
use barq_native.Query.Rbool.{Rbool, of_query, copy, of_bool, active_query, active_bool}

-- What core's objects do with a column of one type: get, set, get_optional and set_null of obj.
pub record Column (A : Type 0) : Type 1 where
  pub Obj : Type 0
  pub get : Obj → ColKey → A
  pub set : Obj → ColKey → A → Obj
  pub get_optional : Obj → ColKey → Option A
  pub set_null : Obj → ColKey → Obj

module _ {A : Type 0} (C : Column A) where
  open C use {Obj, get, set, get_optional, set_null}

  -- The documented behaviour: a write is read back, and other columns keep their values.
  pub record IsColumn : Type 0 where
    pub get-set : (o : Obj) (k : ColKey) (v : A) → get (set o k v) k ≡ v
    pub get_other-set : (o : Obj) (k j : ColKey) (v : A) → k ≢ j → get (set o k v) j ≡ get o j
    pub get_optional-set : (o : Obj) (k : ColKey) (v : A) → get_optional (set o k v) k ≡ some v
    pub get_optional-set_null : (o : Obj) (k : ColKey) → get_optional (set_null o k) k ≡ none

module _ (E : QueryEngine) where
  -- A comparison: the rbool that m_rbool_query points to afterwards, and the rbool that is returned.
  abbrev pub Compared : Type 0
  Compared = Option (Option (Rbool E) × Rbool E)

  -- The comparison in query mode, where the returned rbool is a copy of the shared one.
  abbrev pub in_query : Option (Rbool E) → Compared
  in_query none = none
  in_query (some r) = some (some r, copy E r)

  abbrev pub in_object : Bool → Compared
  in_object b = some (none, of_bool E b)

  -- The rbool that a predicate on a table starts from.
  abbrev pub start : E.Table → Option (Rbool E)
  start t = some (of_query E (E.all t))

  -- What a returned rbool says: of a row, where it holds a query, or by the bool in it.
  abbrev pub query_answer : Compared → E.Row → Option Bool
  query_answer c row = do (r, x) ← c; q ← active_query E x.content; some (E.matches q row)

  abbrev pub object_answer : Compared → Option Bool
  object_answer c = do (r, x) ← c; active_bool E x.content
