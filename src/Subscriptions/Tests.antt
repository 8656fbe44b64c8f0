-- ===== src/Subscriptions/Tests.antt =====
-- Sets of subscriptions that are functions from names to numbered queries.
use barq_native.Prelude.{
  ℕ, ◌≡◌, ◌≢◌, refl, ap, Bool-cases, inl, inr, Option, none, some, [], ◌∷◌, if◌then◌else◌,
}
use mathlib.Core.Option
use barq_native.Prelude.Bytes.{Bytes, bytes_eq, bytes_eq_sound, bytes_eq_refl}
use barq_native.Subscriptions.{CoreSubscriptions, complete, update_subscription, update}
use barq_native.Subscriptions.Editing.{IsByName, is_some}
use barq_native.Subscriptions.Updates.{KeepsNames, Settled, update-Settled}

abbrev Named : Type 0
Named = Bytes → Option ℕ

abbrev put : Bytes → Option ℕ → Named → Named
put name q m n = if bytes_eq n name then q else m n

abbrev named : CoreSubscriptions
named = record {
  Set = Named;
  Mutable = Named;
  Query = ℕ;
  Subscription = ℕ;
  find = λ name s. s name;
  make_mutable_copy = λ s. s;
  commit = λ m. some m;
  find_in = λ name m. m name;
  insert_or_assign = λ name q m. put name (some q) m;
  erase = λ name m. (put name none m, is_some (m name));
  clear_all = λ m n. none;
  get_state_change_notification = λ s. some complete;
}

put_same : (name : Bytes) (q : Option ℕ) (m : Named) → put name q m name ≡ q
put_same name q m = rw (bytes_eq_refl name) refl

put_other :
    (name other : Bytes) (q : Option ℕ) (m : Named) → other ≢ name → put name q m other ≡ m other
put_other name other q m d = elim (Bool-cases (bytes_eq other name)) [
  | inl e ↦ absurd (d (bytes_eq_sound other name e))
  | inr e ↦ rw (e) refl
]

named-IsByName : IsByName named
named-IsByName = record {
  query_of = λ s. s;
  find-insert = λ name q m. ap (Option.map (λ s. s)) (put_same name (some q) m);
  find_other-insert = λ name other q m d. put_other name other (some q) m d;
  erased-find = λ name m. refl;
  find-erase = λ name m. put_same name none m;
  find_other-erase = λ name other m d. put_other name other none m d;
  find-clear = λ name m. refl;
}

named-KeepsNames : KeepsNames named
named-KeepsNames = record { find_in-copy = λ name s. refl; find-commit = λ name m s e. cc }

-- The names "a" and "b", with the queries 1 and 2.
abbrev two_names : Named
two_names = put (97 ∷ []) (some 1) (put (98 ∷ []) (some 2) (λ n. none))

update-Settled_example :
    Settled named named-IsByName named-KeepsNames 0
      (97 ∷ [])
      (some (λ root. some 5))
      two_names
      (update named (update_subscription named 0 (97 ∷ []) (some (λ root. some 5))) two_names)
update-Settled_example =
    update-Settled named named-IsByName named-KeepsNames 0 (97 ∷ []) (some (λ root. some 5))
      two_names
