-- ===== src/Managed/Lists/Refinement.antt =====
-- A managed list of values is a std::vector of them.
use barq_native.Prelude.{
  ℕ, zero, suc, ◌+◌, ◌-◌, ◌%◌, ◌^◌, ◌≤◌, ◌<◌, ◌≡◌, refl, sym, ap, ◌∙◌, true, ◌==◌, ltb, Bool-cases,
  inl, inr, Option, none, some, List, [], ◌∷◌, ◌++◌, map, length, length-append, get_elem?, set,
  erase_at, ◌>>=◌, if◌then◌else◌, arith,
}
use mathlib.Core.Option
use barq_native.Managed.Lists.{
  CoreList, IsListLike, pop_back, erase, clear, detach_from, detach, push_back, set_at,
}

-- A call on a list that may change it.
pub data Command (T : Type 0) : Type 0 where
  push_back_of : T → Command T
  pop_back_of clear_of : Command T
  erase_of : ℕ → Command T
  set_of : ℕ → T → Command T

module _ {T : Type 0} where
  -- What the calls do to a std::vector; `none` where there is no such element.
  abbrev pub vector_step : Command T → List T → Option (List T)
  vector_step (push_back_of v) vs = some (vs ++ v ∷ [])
  vector_step pop_back_of vs = if length vs == 0 then none else some (erase_at vs (length vs - 1))
  vector_step clear_of vs = some []
  vector_step (erase_of i) vs = if ltb i (length vs) then some (erase_at vs i) else none
  vector_step (set_of i v) vs = if ltb i (length vs) then some (set vs i v) else none

  abbrev pub vector_steps : List (Command T) → List T → Option (List T)
  vector_steps [] vs = some vs
  vector_steps (c ∷ cs) vs = do vs' ← vector_step c vs; vector_steps cs vs'

module _ {T : Type 0} where
  length-set : (xs : List T) (i : ℕ) (x : T) → length (set xs i x) ≡ length xs
  length-set [] i x = refl
  length-set (y ∷ xs) zero x = refl
  length-set (y ∷ xs) (suc i) x = ap suc (length-set xs i x)

  length-erase_at : (xs : List T) (i : ℕ) → length (erase_at xs i) ≤ length xs
  length-erase_at [] i = omega arith
  length-erase_at (x ∷ xs) zero = omega arith
  length-erase_at (x ∷ xs) (suc i) = omega (arith, length-erase_at xs i)

  length-vector_step :
      (c : Command T) (vs vs' : List T) → vector_step c vs ≡ some vs' → length vs' ≤ length vs + 1
  length-vector_step (push_back_of v) vs vs' e = ground (arith, length-append vs (v ∷ []))
  length-vector_step pop_back_of vs vs' e = ground (arith, length-erase_at vs (length vs - 1))
  length-vector_step clear_of vs vs' e = ground arith
  length-vector_step (erase_of i) vs vs' e = ground (arith, length-erase_at vs i)
  length-vector_step (set_of i v) vs vs' e = ground (arith, length-set vs i v)

last_index : (n : ℕ) → n < 2 ^ 64 → 0 < n → (n + (2 ^ 64 - 1)) % 2 ^ 64 ≡ n - 1
last_index n h k = omega arith

before : (n : ℕ) → 0 < n → ltb (n - 1) n ≡ true
before n h = ground arith

-- What map does to the operations on lists.
module _ {A B : Type 0} (f : A → B) where
  length-map : (xs : List A) → length (map f xs) ≡ length xs
  length-map [] = refl
  length-map (x ∷ xs) = ap suc (length-map xs)

  map-append : (xs ys : List A) → map f (xs ++ ys) ≡ map f xs ++ map f ys
  map-append [] ys = refl
  map-append (x ∷ xs) ys = ap (f x ∷◌) (map-append xs ys)

  map-set : (xs : List A) (i : ℕ) (x : A) → map f (set xs i x) ≡ set (map f xs) i (f x)
  map-set [] i x = refl
  map-set (y ∷ xs) zero x = refl
  map-set (y ∷ xs) (suc i) x = ap (f y ∷◌) (map-set xs i x)

  map-erase_at : (xs : List A) (i : ℕ) → map f (erase_at xs i) ≡ erase_at (map f xs) i
  map-erase_at [] i = refl
  map-erase_at (x ∷ xs) zero = refl
  map-erase_at (x ∷ xs) (suc i) = ap (f x ∷◌) (map-erase_at xs i)

module _ (C : CoreList) {T : Type 0} (serialize : T → C.Element) (deserialize : C.Element → T) where
  abbrev pub list_step : Command T → C.Coll → Option C.Coll
  list_step (push_back_of v) l = some (push_back C serialize deserialize v l)
  list_step pop_back_of l = pop_back C l
  list_step clear_of l = some (clear C l)
  list_step (erase_of i) l = erase C i l
  list_step (set_of i v) l = set_at C serialize deserialize i v l

  abbrev pub list_steps : List (Command T) → C.Coll → Option C.Coll
  list_steps [] l = some l
  list_steps (c ∷ cs) l = do l' ← list_step c l; list_steps cs l'

module _ {A : Type 0} where
  -- Without the first `i` elements.
  abbrev drop : ℕ → List A → List A
  drop zero xs = xs
  drop (suc i) [] = []
  drop (suc i) (x ∷ xs) = drop i xs

  drop_at :
      (xs : List A) (i : ℕ)
      → i < length xs
      → (x : A) × (get_elem? xs i ≡ some x) × (drop i xs ≡ x ∷ drop (suc i) xs)
  drop_at [] i h = ground arith
  drop_at (x ∷ xs) zero h = (x, refl, refl)
  drop_at (x ∷ xs) (suc i) h = drop_at xs i (omega arith)

  drop_all : (xs : List A) (i : ℕ) → i ≡ length xs → drop i xs ≡ []
  drop_all [] zero e = refl
  drop_all [] (suc i) e = refl
  drop_all (x ∷ xs) zero e = ground arith
  drop_all (x ∷ xs) (suc i) e = drop_all xs i (omega arith)

module _ (C : CoreList) (L : IsListLike C) {T : Type 0} (serialize : T → C.Element)
    (deserialize : C.Element → T) where
  abbrev pub view : C.Coll → List T
  view l = map deserialize (L.items l)

  size-view : (l : C.Coll) → C.size l ≡ length (view l)
  size-view l = L.size-items l ∙ sym (length-map deserialize (L.items l))

  detach_from-view :
      (l : C.Coll) (i left : ℕ)
      → i + left ≡ C.size l
      → detach_from C serialize deserialize l i left ≡ some (map deserialize (drop i (L.items l)))
  unfolding detach_from
  detach_from-view l i zero e = rw (drop_all (L.items l) i (omega (arith, L.size-items l))) refl
  detach_from-view l i (suc left) e =
      let (x, known, rest) = drop_at (L.items l) i (omega (arith, L.size-items l)) in
      rw (L.get-items l i, known, rest, detach_from-view l (suc i) left (omega arith)) refl

  -- The copy that detach makes has the elements of the list in order.
  pub detach-view : (l : C.Coll) → detach C serialize deserialize l ≡ some (view l)
  unfolding detach
  detach-view l = elim (Bool-cases (C.size l == 0)) [
    | inl e ↦ rw (e) (
        sym (
          ap (λ n. some (map deserialize n))
            (drop_all (L.items l) 0 (ground (arith, L.size-items l)))))
    | inr e ↦ rw (e) (detach_from-view l 0 (C.size l) (omega arith))
  ]

  viewed :
      (o : Option C.Coll) {vs : List C.Element}
      → Option.map L.items o ≡ some vs
      → Option.map view o ≡ some (map deserialize vs)
  viewed none e = cc
  viewed (some l) e = ap (λ o. Option.map (map deserialize) o) e

  remove-view :
      (l : C.Coll) (i : ℕ)
      → Option.map view (C.remove i l)
        ≡ (if ltb i (length (view l)) then some (erase_at (view l) i) else none)
  remove-view l i = elim (Bool-cases (ltb i (length (view l)))) [
    | inl e ↦
        rw (e, sym (map-erase_at deserialize (L.items l) i))
          (viewed (C.remove i l) (L.items-remove l i (ground (arith, size-view l))))
    | inr e ↦ rw (e, L.remove-throws l i (ground (arith, size-view l))) refl
  ]

  set-view :
      (l : C.Coll) (i : ℕ) (x : C.Element)
      → Option.map view (C.set i x l)
        ≡ (if ltb i (length (view l)) then some (set (view l) i (deserialize x)) else none)
  set-view l i x = elim (Bool-cases (ltb i (length (view l)))) [
    | inl e ↦
        rw (e, sym (map-set deserialize (L.items l) i x))
          (viewed (C.set i x l) (L.items-set l i x (ground (arith, size-view l))))
    | inr e ↦ rw (e, L.set-throws l i x (ground (arith, size-view l))) refl
  ]

  pop_back-view :
      (l : C.Coll)
      → length (view l) < 2 ^ 64
      → Option.map view (pop_back C l) ≡ vector_step pop_back_of (view l)
  unfolding pop_back
  pop_back-view l small = elim (Bool-cases (length (view l) == 0)) [
    | inl e ↦
        rw (e, L.remove-throws l ((C.size l + (2 ^ 64 - 1)) % 2 ^ 64) (ground (arith, size-view l)))
          refl
    | inr e ↦
        rw
          (
            e,
            pop_back,
            last_index (C.size l) (omega (arith, size-view l)) (ground (arith, size-view l)),
          )
          (rw (remove-view l (C.size l - 1))
            (rw (size-view l, before (length (view l)) (ground arith)) refl))
  ]

  step-view :
      ((v : T) → deserialize (serialize v) ≡ v)
      → (c : Command T) (l : C.Coll) → length (view l) < 2 ^ 64
      → Option.map view (list_step C serialize deserialize c l) ≡ vector_step c (view l)
  unfolding push_back clear erase set_at
  step-view back (push_back_of v) l small =
      ap some (rw (L.items-add l (serialize v), map-append, back v) refl)
  step-view back pop_back_of l small = pop_back-view l small
  step-view back clear_of l small = ap (λ x. some (map deserialize x)) (L.items-remove_all l)
  step-view back (erase_of i) l small = remove-view l i
  step-view back (set_of i v) l small = rw (set_at, set-view l i (serialize v), back v) refl

  same_copy : (ws : List T) {vs : List T} → some ws ≡ some vs → ws ≡ vs
  same_copy ws e = cc

  steps-view :
      ((v : T) → deserialize (serialize v) ≡ v)
      → (cs : List (Command T)) (l : C.Coll) → length (view l) + length cs < 2 ^ 64
      → (list_steps C serialize deserialize cs l >>= detach C serialize deserialize)
        ≡ vector_steps cs (view l)
  steps-view back [] l small = detach-view l
  steps-view back (c ∷ cs) l small =
      after (λ l'. steps-view back cs l') (list_step C serialize deserialize c l)
        (step-view back c l (omega arith))
        (λ vs' e. omega (arith, length-vector_step c (view l) vs' e))
    where
      after :
          ((l' : C.Coll)
            → length (view l') + length cs < 2 ^ 64
            → (list_steps C serialize deserialize cs l' >>= detach C serialize deserialize)
              ≡ vector_steps cs (view l'))
          → (o : Option C.Coll) {w : Option (List T)} → Option.map view o ≡ w
          → ((vs' : List T) → w ≡ some vs' → length vs' + length cs < 2 ^ 64)
          → ((o >>= list_steps C serialize deserialize cs) >>= detach C serialize deserialize)
            ≡ (w >>= vector_steps cs)
      after rest none e bound = rw (sym e) refl
      after rest (some l') e bound = rw (sym e) (rest l' (bound (view l') (sym e)))

  -- Where core's lists are sequences of elements and a value is read back as it was stored, any
  -- sequence of push_back, pop_back, clear, erase and set on a managed list throws exactly where
  -- there is no such element, and otherwise leaves what the same calls make of a std::vector that
  -- starts with what detach copied, when the elements and the calls together are fewer than 2^64.
  pub list_steps-vector_steps :
      ((v : T) → deserialize (serialize v) ≡ v)
      → (cs : List (Command T)) (l : C.Coll) (vs : List T)
      → detach C serialize deserialize l ≡ some vs
      → length vs + length cs < 2 ^ 64
      → (list_steps C serialize deserialize cs l >>= detach C serialize deserialize)
        ≡ vector_steps cs vs
  list_steps-vector_steps back cs l vs known small =
      let copied : view l ≡ vs = same_copy (view l) (sym (detach-view l) ∙ known) in
      steps-view back cs l (rw (copied) small) ∙ ap (vector_steps cs) copied
