-- ===== src/Subscriptions/Editing.antt =====
-- What the edits of a subscription set leave.
use barq_native.Prelude.{
  ◌≡◌, ◌≢◌, refl, sym, ◌∙◌, Bool, true, false, Bool-cases, Option-cases, inl, inr, Option, none,
  some,
}
use mathlib.Core.Option
use barq_native.Prelude.Bytes.{Bytes}
use barq_native.Subscriptions.{CoreSubscriptions, add, remove, update_subscription}

abbrev pub is_some : {A : Type 0} → Option A → Bool
is_some none = false
is_some (some a) = true

module _ (C : CoreSubscriptions) where
  open C use {Set, Mutable, Query, Subscription, find_in, insert_or_assign, erase, clear_all}

  -- The documented behaviour: a set of subscriptions by name.
  pub record IsByName : Type 0 where
    pub query_of : Subscription → Query
    pub find-insert :
        (name : Bytes) (q : Query) (m : Mutable)
        → Option.map query_of (find_in name (insert_or_assign name q m)) ≡ some q
    pub find_other-insert :
        (name other : Bytes) (q : Query) (m : Mutable)
        → other ≢ name
        → find_in other (insert_or_assign name q m) ≡ find_in other m
    pub erased-find : (name : Bytes) (m : Mutable) → (erase name m).1 ≡ is_some (find_in name m)
    pub find-erase : (name : Bytes) (m : Mutable) → find_in name (erase name m).0 ≡ none
    pub find_other-erase :
        (name other : Bytes) (m : Mutable)
        → other ≢ name
        → find_in other (erase name m).0 ≡ find_in other m
    pub find-clear : (name : Bytes) (m : Mutable) → find_in name (clear_all m) ≡ none

  -- The query that add subscribes to
  abbrev pub chosen : Query → Option (Query → Option Query) → Option Query
  chosen root_query none = some root_query
  chosen root_query (some query_fn) = query_fn root_query

  module _ (L : IsByName) where
    -- What update_subscription leaves in place of `m`.
    pub record Replaced (name : Bytes) (q : Query) (m m' : Mutable) : Type 0 where
      pub there : Option.map L.query_of (find_in name m') ≡ some q
      pub others : (other : Bytes) → other ≢ name → find_in other m' ≡ find_in other m

    add_chosen :
        (root : Query) (name : Bytes) (f : Option (Query → Option Query)) (m : Mutable)
        → add C root name f m ≡ Option.map (λ q. insert_or_assign name q m) (chosen root f)
    unfolding add
    add_chosen root name none m = refl
    add_chosen root name (some query_fn) m = elim (Option-cases (query_fn root)) [
      | inl e ↦ rw (add, e) refl
      | inr (q, e) ↦ rw (add, e) refl
    ]

    -- When it returns, it has replaced a subscription that was there.
    pub update_subscription-Replaced :
        (root : Query) (name : Bytes) (f : Option (Query → Option Query)) (m m' : Mutable)
        → update_subscription C root name f m ≡ some m'
        → (q : Query) × (is_some (find_in name m) ≡ true)
          × (chosen root f ≡ some q)
          × Replaced name q m m'
    unfolding update_subscription remove
    update_subscription-Replaced root name f m m' h = elim (Bool-cases (erase name m).1) [
      | inr b ↦ absurd (refused (sym (rw (update_subscription, remove, b) refl) ∙ h))
      | inl b ↦ elim (Option-cases (chosen root f)) [
        | inl e ↦ absurd (
            refused (
              sym (
                rw (update_subscription, remove, b, add_chosen root name f (erase name m).0, e)
                  refl)
              ∙ h))
        | inr (q, e) ↦
            let made : insert_or_assign name q (erase name m).0 ≡ m' = same (
              sym (
                rw (update_subscription, remove, b, add_chosen root name f (erase name m).0, e)
                  refl)
              ∙ h) in
            (
              q,
              sym (L.erased-find name m) ∙ b,
              e,
              record {
                there = rw (sym made) (L.find-insert name q (erase name m).0);
                others = λ other d. rw (sym made) (
                    L.find_other-insert name other q (erase name m).0 d
                    ∙ L.find_other-erase name other m d);
              },
            )
      ]
    ]
      where
        refused : {m'' : Mutable} → none ≡ some m'' → ⊥
        refused e = cc

        same : {m₁ m₂ : Mutable} → some m₁ ≡ some m₂ → m₁ ≡ m₂
        same e = cc
