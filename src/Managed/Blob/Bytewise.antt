-- ===== src/Managed/Blob/Bytewise.antt =====
-- The bytes of a binary field.
use barq_native.Prelude.{
  ℕ, zero, suc, ◌+◌, ◌%◌, ◌^◌, ◌≡◌, refl, sym, ap₂, append_assoc, ◌∙◌, none, some, [], ◌∷◌, ◌++◌,
  length, get_elem?, get_elem?-append, length-append, arith, ◌==◌, if◌then◌else◌, Option-cases, inl,
  inr,
}
use barq_native.Prelude.Bytes.{Bytes}
use barq_native.Query.{ColKey}
use barq_native.Managed.{Column, IsColumn}
use barq_native.Managed.Blob.{
  to_vector_from, to_vector, detach, push_back, index, size, box_push_back,
}

-- The bytes of `b` from `ys` on, which `xs` stands before.
to_vector_from-suffix :
    (xs ys : Bytes) → to_vector_from (xs ++ ys) (length xs) (length ys) ≡ some ys
unfolding to_vector_from
to_vector_from-suffix xs [] = refl
to_vector_from-suffix xs (y ∷ ys) =
    let rest : to_vector_from (xs ++ y ∷ ys) (suc (length xs)) (length ys) ≡ some ys =
      ap₂ (λ b i. to_vector_from b i (length ys)) (sym (append_assoc xs (y ∷ []) ys))
        (sym (length-append xs (y ∷ []) ∙ omega arith))
      ∙ to_vector_from-suffix (xs ++ y ∷ []) ys in
    rw (get_elem?-append xs y ys, rest) refl

to_vector-copies : (b : Bytes) → to_vector b ≡ some b
unfolding to_vector
to_vector-copies b = to_vector_from-suffix [] b

-- The elements of a list that a value was appended to
get_elem?-appended :
    (xs : Bytes) (v i : ℕ)
    → get_elem? (xs ++ v ∷ []) i ≡ (if i == length xs then some v else get_elem? xs i)
get_elem?-appended [] v zero = refl
get_elem?-appended [] v (suc i) = ground arith
get_elem?-appended (x ∷ xs) v zero = ground arith
get_elem?-appended (x ∷ xs) v (suc i) = get_elem?-appended xs v i ∙ ground arith

module _ (C : Column Bytes) (L : IsColumn C) where
  open C use {Obj, get, get_optional}

  -- Over columns that read back what was written, push_back appends a byte to the field's bytes,
  -- and so it does through the box of an optional field that is not null, and on null does
  -- nothing. operator[] gives the new byte exactly at the indexes whose remainder by 256 was the
  -- size, and at the others what it gave before.
  pub push_back-index :
      (k : ColKey) (v : ℕ) (o : Obj)
      → (o' : Obj) × (push_back C k v o ≡ some o')
        × (detach C k o' ≡ some (get o k ++ v ∷ []))
        × (size C k o' ≡ size C k o + 1)
        × ((i : ℕ) → index C k i o' ≡ (if (i % 2 ^ 8) == size C k o then some v else index C k i o))
        × (box_push_back C k v o
            ≡ some (elim (get_optional o k) [ none ↦ o | some b ↦ C.set o k (b ++ v ∷ []) ]))
  unfolding push_back detach size index box_push_back
  push_back-index k v o =
      let b = get o k in
      let e = L.get-set o k (b ++ v ∷ []) in
      (
        C.set o k (b ++ v ∷ []),
        rw (to_vector-copies b) refl,
        rw (e) (to_vector-copies (b ++ v ∷ [])),
        rw (e) (length-append b (v ∷ [])),
        λ i. rw (e) (get_elem?-appended b v (i % 2 ^ 8)),
        elim (Option-cases (get_optional o k)) [
          | inl n ↦ rw (box_push_back, n) refl
          | inr (c, n) ↦ rw (box_push_back, n, to_vector-copies c) refl
        ],
      )
