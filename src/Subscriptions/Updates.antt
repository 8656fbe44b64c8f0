-- ===== src/Subscriptions/Updates.antt =====
-- An update of the subscriptions of a file.
use barq_native.Prelude.{true, ap, ◌≡◌, ◌≢◌, sym, ◌∙◌, Option-cases, inl, inr, Option, none, some}
use mathlib.Core.Option
use barq_native.Prelude.Bytes.{Bytes}
use barq_native.Subscriptions.{
  CoreSubscriptions, Updated, update_subscription, find, update, resolved,
}
use barq_native.Subscriptions.Editing.{IsByName, chosen, update_subscription-Replaced, is_some}

module _ (C : CoreSubscriptions) where
  open C use {Set, Mutable, Query, Subscription, find_in, commit, make_mutable_copy}

  -- The documented behaviour: a copy and a commit keep the subscriptions.
  pub record KeepsNames : Type 0 where
    pub find_in-copy : (name : Bytes) (s : Set) → find_in name (make_mutable_copy s) ≡ C.find name s
    pub find-commit :
        (name : Bytes) (m : Mutable) (s : Set) → commit m ≡ some s → C.find name s ≡ find_in name m

  module _ (L : IsByName C) (K : KeepsNames) where
    -- What update leaves of `s` when it is given update_subscription of `name`.
    pub data Settled (root : Query) (name : Bytes) (f : Option (Query → Option Query)) (s : Set)
        : Updated C → Type 0 where
      refused : Settled root name f s (record { set = some s; future = none })
      destroyed :
          (m : Mutable)
          → is_some (find C name s) ≡ true
          → commit m ≡ none
          → Settled root name f s (record { set = none; future = none })
      replaced :
          (s' : Set) (q : Query)
          → is_some (find C name s) ≡ true
          → chosen C root f ≡ some q
          → Option.map L.query_of (find C name s') ≡ some q
          → ((other : Bytes) → other ≢ name → find C other s' ≡ find C other s)
          → Settled root name f s (record {
            set = some s';
            future = some (resolved C (C.get_state_change_notification s'));
          })

    -- Over core sets that are sets of subscriptions by name, an update by update_subscription
    -- either throws and leaves the set as it was, or replaces the query of that name, by the
    -- predicate's or the one of all objects, keeps every other subscription and returns a future
    -- of whether the set is complete, or destroys the set, and then the commit of a set threw.
    -- For a name that is not in the set it throws and the set is as it was.
    pub update-Settled :
        (root : Query) (name : Bytes) (f : Option (Query → Option Query)) (s : Set)
        → Settled root name f s (update C (update_subscription C root name f) s)
    unfolding update find
    update-Settled root name f s =
        let m = make_mutable_copy s in
        elim (Option-cases (update_subscription C root name f m)) [
          | inl e ↦ rw (update, e) refused
          | inr (m', e) ↦
              let (q, was, by, r) = update_subscription-Replaced C L root name f m m' e in
              let there : is_some (find C name s) ≡ true =
                ap is_some (sym (K.find_in-copy name s)) ∙ was in
              elim (Option-cases (commit m')) [
                | inl d ↦ rw (update, e, d) (destroyed m' there d)
                | inr (s', d) ↦
                    rw (update, e, d)
                      (replaced s' q there by (rw (K.find-commit name m' s' d) r.there)
                        (λ other apart.
                          K.find-commit other m' s' d
                          ∙ r.others other apart
                          ∙ K.find_in-copy other s))
              ]
        ]
