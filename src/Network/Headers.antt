-- ===== src/Network/Headers.antt =====
-- std::map from header names to values, by an equality of names: that of std::string for
-- networking::http_headers, and core's, which ignores case, for sync::HTTPHeaders.
use barq_native.Prelude.{
  ◌≡◌, refl, Bool, true, Option, none, some, List, [], ◌∷◌, arith, if◌then◌else◌,
}
use barq_native.Prelude.Bytes.{Bytes, bytes_eq, bytes_eq_sound, bytes_eq_refl}

abbrev pub Headers : Type 0
Headers = List (Bytes × Bytes)

module _ (same : Bytes → Bytes → Bool) where
  unfoldable pub get : Bytes → Headers → Option Bytes
  get k [] = none
  get k ((j, v) ∷ m) = if same j k then some v else get k m

  -- m[k] = v
  unfoldable pub assign : Bytes → Bytes → Headers → Headers
  assign k v [] = (k, v) ∷ []
  assign k v ((j, w) ∷ m) = if same j k then (j, v) ∷ m else (j, w) ∷ assign k v m

  -- m.emplace(k, v), which leaves a value that is there
  unfoldable pub emplace : Bytes → Bytes → Headers → Headers
  emplace k v [] = (k, v) ∷ []
  emplace k v ((j, w) ∷ m) = if same j k then (j, w) ∷ m else (j, w) ∷ emplace k v m

  unfoldable pub assign_all : Headers → Headers → Headers
  assign_all [] m = m
  assign_all ((k, v) ∷ hs) m = assign_all hs (assign k v m)

  unfoldable pub emplace_all : Headers → Headers → Headers
  emplace_all [] m = m
  emplace_all ((k, v) ∷ hs) m = emplace_all hs (emplace k v m)

  -- An equality of names.
  pub record IsEquality : Type 0 where
    pub reflexive : (k : Bytes) → same k k ≡ true
    pub left : (j k i : Bytes) → same j k ≡ true → same j i ≡ same k i

module _ (same : Bytes → Bytes → Bool) (eq : IsEquality same) where
  pub get-assign :
      (k v i : Bytes) (m : Headers)
      → get same i (assign same k v m) ≡ (if same k i then some v else get same i m)
  unfolding get assign
  get-assign k v i [] = refl
  get-assign k v i ((j, w) ∷ m) =
      ground
        (arith, eq.left j k i, eq.left j i k, eq.left k i k, eq.reflexive k, get-assign k v i m)

  -- A header that is there keeps its value, whatever is put behind it.
  pub get-emplace :
      (k v i w : Bytes) (m : Headers)
      → get same i m ≡ some w
      → get same i (emplace same k v m) ≡ some w
  unfolding get emplace
  get-emplace k v i w [] h = cc
  get-emplace k v i w ((j, u) ∷ m) h = ground (arith, get-emplace k v i w m)

  pub get-emplace_all :
      (hs : Headers) (i w : Bytes) (m : Headers)
      → get same i m ≡ some w
      → get same i (emplace_all same hs m) ≡ some w
  unfolding emplace_all
  get-emplace_all [] i w m h = h
  get-emplace_all ((k, v) ∷ hs) i w m h =
      get-emplace_all hs i w (emplace same k v m) (get-emplace k v i w m h)

bytes_eq-left : (j k i : Bytes) → bytes_eq j k ≡ true → bytes_eq j i ≡ bytes_eq k i
bytes_eq-left j k i h = rw (bytes_eq_sound j k h)

pub bytes_eq-IsEquality : IsEquality bytes_eq
bytes_eq-IsEquality = record { reflexive = bytes_eq_refl; left = bytes_eq-left }
