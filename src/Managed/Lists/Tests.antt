-- ===== src/Managed/Lists/Tests.antt =====
-- Lists of numbers, which core stores as they are, and lists of numbered objects.
use barq_native.Prelude.{
  ℕ, suc, ◌+◌, ◌-◌, ◌≡◌, refl, ltb, none, some, List, [], ◌∷◌, ◌++◌, length, get_elem?, set,
  erase_at, ◌>>=◌, if◌then◌else◌, arith,
}
use barq_native.Managed.Links.Sample.{Database, empty, sample_store}
use barq_native.Managed.Lists.{CoreList, IsListLike, detach, pop_back}
use barq_native.Managed.Lists.Refinement.{
  Command, push_back_of, pop_back_of, set_of, erase_of, list_steps, list_steps-vector_steps,
}
use barq_native.Managed.Lists.Objects.{LinkList, IsLinkList}

abbrev numbers : CoreList
numbers = record {
  Coll = List ℕ;
  Element = ℕ;
  Sorted = List ℕ;
  size = length;
  get = get_elem?;
  add = λ v l. l ++ v ∷ [];
  set = λ i v l. if ltb i (length l) then some (set l i v) else none;
  remove = λ i l. if ltb i (length l) then some (erase_at l i) else none;
  remove_all = λ l. [];
  find = λ l v. 0;
  sort = λ ds l. l;
}

numbers-IsListLike : IsListLike numbers
numbers-IsListLike = record {
  items = λ l. l;
  size-items = λ l. refl;
  get-items = λ l i. refl;
  items-add = λ l v. refl;
  items-set = λ l i v h. ground arith;
  set-throws = λ l i v h. ground arith;
  items-remove = λ l i h. ground arith;
  remove-throws = λ l i h. ground arith;
  items-remove_all = λ l. refl;
}

abbrev sample_commands : List (Command ℕ)
sample_commands = push_back_of 5 ∷ set_of 1 8 ∷ erase_of 0 ∷ pop_back_of ∷ push_back_of 2 ∷ []

-- A number is stored as its successor.
list_steps-vector_steps_example :
    (list_steps numbers (λ v. v + 1) (λ v. v - 1) sample_commands (4 ∷ 5 ∷ [])
      >>= detach numbers (λ v. v + 1) (λ v. v - 1))
    ≡ some (8 ∷ 2 ∷ [])
unfolding detach
list_steps-vector_steps_example =
    list_steps-vector_steps numbers numbers-IsListLike (λ v. v + 1) (λ v. v - 1) (λ v. omega arith)
      sample_commands (4 ∷ 5 ∷ []) (3 ∷ 4 ∷ []) refl (omega arith)

pop_back_empty : pop_back numbers [] ≡ none
unfolding pop_back
pop_back_empty = refl

-- The list of the objects 0 and 1 in a file with one object more.
abbrev listed : Database
listed = record empty { next = 3; items = 0 ∷ 1 ∷ [] }

abbrev sample_list : LinkList sample_store
sample_list = record {
  size = λ db. length db.items;
  get = λ i db. get_elem? db.items i;
  add = λ obj db. record db { items = db.items ++ obj ∷ [] };
  add_embedded =
      λ db. (record db { next = suc db.next; items = db.items ++ db.next ∷ [] }, db.next);
  remove = λ i db.
      if ltb i (length db.items) then some (record db { items = erase_at db.items i }) else none;
  remove_all = λ db. record db { items = [] };
  find = λ obj db. 0;
}

abbrev sample_list-IsLinkList : IsLinkList sample_store sample_list
sample_list-IsLinkList = record {
  items = λ db. db.items;
  items-add = λ obj db. refl;
  items-add_embedded = λ db. refl;
  items-create = λ db. refl;
  items-create_with_primary_key = λ pk db. refl;
  items-assign = λ value obj db. refl;
  fields_of-add = λ obj other db. refl;
}
