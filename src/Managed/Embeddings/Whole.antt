-- ===== src/Managed/Embeddings/Whole.antt =====
-- What a column of floats reads as after it was written.
use barq_native.Prelude.{
  ℕ, suc, ◌≡◌, sym, ap, ◌∙◌, some, List, [], ◌∷◌, ◌++◌, length, get_elem?, get_elem?-append,
  length-append, append_assoc, append-nil, arith,
}
use barq_native.Managed.Embeddings.{CoreFloats, assign, value_from, value, detach, size, at}

module _ (C : CoreFloats) where
  open C use {Coll, Float, get}

  -- The documented behaviour: a list is a sequence of floats.
  pub record IsSequence : Type 0 where
    pub items : Coll → List Float
    pub size-items : (l : Coll) → C.size l ≡ length (items l)
    pub get-items : (l : Coll) (i : ℕ) → get l i ≡ get_elem? (items l) i
    pub items-set : (v : List Float) (l : Coll) → items (C.set_list_values v l) ≡ v

  module _ (L : IsSequence) where
    value_from-items :
        (l : Coll) (xs ys : List Float)
        → L.items l ≡ xs ++ ys
        → value_from C l (length xs) (length ys) xs ≡ some (xs ++ ys)
    unfolding value_from
    value_from-items l xs [] e = ap some (sym (append-nil xs))
    value_from-items l xs (y ∷ ys) e =
        let known : get l (length xs) ≡ some y =
          L.get-items l (length xs)
          ∙ ap (λ zs. get_elem? zs (length xs)) e
          ∙ get_elem?-append xs y ys in
        let next : suc (length xs) ≡ length (xs ++ y ∷ []) =
          sym (length-append xs (y ∷ []) ∙ omega arith) in
        rw (known, next)
          (value_from-items l (xs ++ y ∷ []) ys (e ∙ sym (append_assoc xs (y ∷ []) ys))
            ∙ ap some (append_assoc xs (y ∷ []) ys))

    -- Over lists of core that are sequences of floats, a vector column to which a vector is
    -- assigned reads as that vector, by value and by detach, has its size, and operator[] gives
    -- the element of the vector at every index below the size and throws at every other one,
    -- whatever the column had.
    assign-value :
        (v : List Float) (l : Coll)
        → let l' = assign C v l in
          (value C l' ≡ some v)
          × (detach C l' ≡ some v)
          × (size C l' ≡ length v)
          × ((i : ℕ) → at C l' i ≡ get_elem? v i)
    unfolding assign value detach size at
    assign-value v l =
        let l' = assign C v l in
        let counted : C.size l' ≡ length v = L.size-items l' ∙ ap length (L.items-set v l) in
        let read : value C l' ≡ some v =
          ap (λ n. value_from C l' 0 n []) counted ∙ value_from-items l' [] v (L.items-set v l) in
        (read, read, counted, λ i. L.get-items l' i ∙ ap (λ zs. get_elem? zs i) (L.items-set v l))
