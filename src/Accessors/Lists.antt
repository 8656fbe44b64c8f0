-- ===== src/Accessors/Lists.antt =====
-- What a list column has after a whole list was written to it.
use barq_native.Prelude.{
  ℕ, suc, ◌≡◌, refl, sym, ap, ◌∙◌, Option, none, some, List, [], ◌∷◌, ◌++◌, map, length,
  length-append, append_assoc, append-nil, ◌>>=◌, arith,
}
use mathlib.Core.Option
use mathlib.Core.Path.{fun_ext}
use barq_native.Accessors.{
  ListColumn, set_list_values, add_each, set_list_values_bool, insert_each, set_list_values_mixed,
  insert_each_optional, set_list_values_optional,
}

module _ (M : ListColumn) where
  open M use {Coll, Element, null}

  -- The documented behaviour: a list column is a sequence of elements, and an insertion within it
  -- moves what follows.
  pub record IsListColumn : Type 0 where
    pub items : Coll → List Element
    pub items-set_all : (values : List Element) (l : Coll) → items (M.set_all values l) ≡ values
    pub items-add : (v : Element) (l : Coll) → items (M.add v l) ≡ items l ++ v ∷ []
    pub insert-within :
        (v : Element) (l : Coll) (xs ys : List Element)
        → items l ≡ xs ++ ys
        → (l' : Coll) × (M.insert (length xs) v l ≡ some l') × (items l' ≡ xs ++ v ∷ ys)

  -- An optional element as it is stored
  abbrev pub or_null : Option Element → Element
  or_null none = null
  or_null (some v) = v

  module _ (L : IsListColumn) where
    open L use {items}

    items-add_each :
        (values : List Element) (l : Coll) → items (add_each M values l) ≡ items l ++ values
    unfolding add_each
    items-add_each [] l = sym (append-nil (items l))
    items-add_each (v ∷ values) l =
        items-add_each values (M.add v l)
        ∙ ap (λ xs. xs ++ values) (L.items-add v l)
        ∙ append_assoc (items l) (v ∷ []) values

    insert_each-optional :
        (i : ℕ) (values : List (Option Element)) (l : Coll)
        → insert_each_optional M i values l ≡ insert_each M i (map or_null values) l
    unfolding insert_each insert_each_optional
    insert_each-optional i [] l = refl
    insert_each-optional i (some v ∷ values) l =
        ap (λ f. M.insert i v l >>= f) (fun_ext λ l'. insert_each-optional (suc i) values l')
    insert_each-optional i (none ∷ values) l =
        ap (λ f. M.insert i null l >>= f) (fun_ext λ l'. insert_each-optional (suc i) values l')

    items-insert_each :
        (values : List Element) (l : Coll) (xs ys : List Element)
        → items l ≡ xs ++ ys
        → Option.map items (insert_each M (length xs) values l) ≡ some (xs ++ (values ++ ys))
    unfolding insert_each
    items-insert_each [] l xs ys e = ap some e
    items-insert_each (v ∷ values) l xs ys e =
        let (l', inserted, after) = L.insert-within v l xs ys e in
        rw (inserted) (
          ap (λ i. Option.map items (insert_each M i values l'))
            (sym (length-append xs (v ∷ []) ∙ omega arith))
          ∙ items-insert_each values l' (xs ++ v ∷ []) ys
              (after ∙ sym (append_assoc xs (v ∷ []) ys))
          ∙ ap some (append_assoc xs (v ∷ []) (values ++ ys)))

    -- Over a list column that meets its laws, writing a whole list replaces what the column had
    -- for most types of elements, but appends a list of bools to it, and puts a list of mixed
    -- values, or of optional values of the types that are inserted one by one, before it. To a
    -- column that has no elements each of them writes just the list.
    pub set_list_values-items :
        (values : List Element) (optional : List (Option Element)) (l : Coll)
        → (items (set_list_values M values l) ≡ values)
          × (items (set_list_values_bool M values l) ≡ items l ++ values)
          × (Option.map items (set_list_values_mixed M values l) ≡ some (values ++ items l))
          × (Option.map items (set_list_values_optional M optional l)
              ≡ some (map or_null optional ++ items l))
    unfolding set_list_values set_list_values_bool set_list_values_mixed set_list_values_optional
    set_list_values-items values optional l = (
      L.items-set_all values l,
      appended values,
      items-insert_each values l [] (items l) refl,
      ap (Option.map items) (insert_each-optional 0 optional l)
          ∙ items-insert_each (map or_null optional) l [] (items l) refl,
    )
      where
        appended :
            (values : List Element) → items (set_list_values_bool M values l) ≡ items l ++ values
        appended [] = sym (append-nil (items l))
        appended (v ∷ values) = items-add_each (v ∷ values) l
