-- ===== src/Managed/Embeddings.antt =====
-- include/barq_native/managed_vector.hpp: managed<vector_indexed<...>>, a column that is a list of
-- floats, which is written and read as a whole. `none` is an exception of core.
pub mod Whole
mod Tests
use barq_native.Prelude.{ℕ, zero, suc, Option, none, some, List, [], ◌∷◌, ◌++◌, ◌>>=◌}

-- What core's lists of floats do. get throws out of range.
pub record CoreFloats : Type 1 where
  pub Coll : Type 0
  pub Float : Type 0
  pub size : Coll → ℕ
  pub get : Coll → ℕ → Option Float
  pub set_list_values : List Float → Coll → Coll

module _ (C : CoreFloats) where
  open C use {Coll, Float, get}

  unfoldable pub assign : List Float → Coll → Coll
  assign v list = C.set_list_values v list

  -- The loop of value, from index `i` on
  unfoldable pub value_from : Coll → ℕ → ℕ → List Float → Option (List Float)
  value_from list i zero ret = some ret
  value_from list i (suc left) ret = do v ← get list i; value_from list (suc i) left (ret ++ v ∷ [])

  unfoldable pub value : Coll → Option (List Float)
  unfolding value_from
  value list = value_from list 0 (C.size list) []

  -- A vector_indexed is its vector.
  unfoldable pub detach : Coll → Option (List Float)
  unfolding value
  detach list = value list

  unfoldable pub size : Coll → ℕ
  size list = C.size list

  unfoldable pub at : Coll → ℕ → Option Float
  at list idx = get list idx
