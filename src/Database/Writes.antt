-- ===== src/Database/Writes.antt =====
-- A write transaction is committed as a whole or not at all, and is never left open.
use barq_native.Prelude.{
  ◌≡◌, refl, sym, ◌∙◌, Bool, true, false, Bool-cases, Option-cases, inl, inr, Option, none, some,
}
use barq_native.Database.{CoreFile, Action, write}

refused : {A : Type 0} {a : A} → none ≡ some a → ⊥
refused e = cc

module _ (F : CoreFile) where
  open F use {State, begin_transaction, commit_transaction, cancel_transaction}

  -- The documented behaviour: a file without a transaction begins one with its contents as the
  -- draft; a commit makes the draft the contents or throws and leaves the transaction open; a
  -- cancel ends it.
  pub record IsTransactional : Type 1 where
    pub Contents : Type 0
    pub is_open : State → Bool
    pub contents : State → Contents
    pub draft : State → Contents
    pub is_open-begin :
        (s : State) → is_open s ≡ false → is_open (begin_transaction s).0 ≡ (begin_transaction s).1
    pub contents-begin : (s : State) → contents (begin_transaction s).0 ≡ contents s
    pub draft-begin : (s : State) → is_open s ≡ false → draft (begin_transaction s).0 ≡ contents s
    pub is_open-commit :
        (s : State)
        → is_open s ≡ true
        → (commit_transaction s).1 ≡ true
        → (is_open (commit_transaction s).0 ≡ false) × (contents (commit_transaction s).0 ≡ draft s)
    pub commit-throws :
        (s : State)
        → is_open s ≡ true
        → (commit_transaction s).1 ≡ false
        → (is_open (commit_transaction s).0 ≡ true)
          × (contents (commit_transaction s).0 ≡ contents s)
    pub is_open-cancel :
        (s : State)
        → is_open s ≡ true
        → (is_open (cancel_transaction s).0 ≡ false)
          × (contents (cancel_transaction s).0 ≡ contents s)

  module _ (L : IsTransactional) where
    open L use {is_open, contents, draft}

    -- An action that neither ends the transaction that it runs in nor commits anything.
    pub record StaysInside {V : Type 0} (fn : Action F V) : Type 0 where
      pub still_open : (s : State) → is_open s ≡ true → is_open (fn s).0 ≡ true
      pub uncommitted : (s : State) → is_open s ≡ true → contents (fn s).0 ≡ contents s

    -- What a write of `fn` has come to: it returned what fn returned and what fn drafted is the
    -- contents of the file, or it threw and the contents are as they were.
    pub data Atomic {V : Type 0} (fn : Action F V) (s : State) : State × Option V → Type 0 where
      committed :
          {s' : State} {v : V}
          → (fn (begin_transaction s).0).1 ≡ some v
          → contents s' ≡ draft (fn (begin_transaction s).0).0
          → Atomic fn s (s', some v)
      rolled_back : {s' : State} → contents s' ≡ contents s → Atomic fn s (s', none)

    -- Over a file that meets its laws and has no open transaction, write of an action that does
    -- not end its transaction leaves no transaction open. Either it returns what the action
    -- returned and what the action drafted is committed, or it throws and the file's contents are
    -- as they were, whichever of the beginning, the action and the commit threw.
    pub write-Atomic :
        {V : Type 0} (fn : Action F V) (s : State)
        → StaysInside fn
        → is_open s ≡ false
        → (is_open (write F fn s).0 ≡ false) × Atomic fn s (write F fn s)
    unfolding write
    write-Atomic fn s inside closed = elim (Bool-cases (begin_transaction s).1) [
      | inr b ↦ rw (b) (L.is_open-begin s closed ∙ b, rolled_back (L.contents-begin s))
      | inl b ↦
          let started = (begin_transaction s).0 in
          let opened : is_open started ≡ true = L.is_open-begin s closed ∙ b in
          let acted = (fn started).0 in
          let still : is_open acted ≡ true = inside.still_open started opened in
          let same : contents acted ≡ contents s =
            inside.uncommitted started opened ∙ L.contents-begin s in
          elim (Option-cases (fn started).1) [
            | inl q ↦
                let (ended, kept) = L.is_open-cancel acted still in
                rw (b, q) (ended, rolled_back (kept ∙ same))
            | inr (v, q) ↦ elim (Bool-cases (commit_transaction acted).1) [
              | inl d ↦
                  let (ended, drafted) = L.is_open-commit acted still d in
                  rw (b, q, d, q) (ended, committed q drafted)
              | inr d ↦
                  let (waiting, unchanged) = L.commit-throws acted still d in
                  let (ended, kept) = L.is_open-cancel _ waiting in
                  rw (b, q, d) (ended, rolled_back (kept ∙ unchanged ∙ same))
            ]
          ]
    ]

  -- A write that returns has returned what its action did, and was committed.
  pub write_returned :
      {V : Type 0} (fn : Action F V) (s : State) (v : V)
      → (write F fn s).1 ≡ some v
      → ((fn (begin_transaction s).0).1 ≡ some v)
        × ((commit_transaction (fn (begin_transaction s).0).0).1 ≡ true)
        × ((write F fn s).0 ≡ (commit_transaction (fn (begin_transaction s).0).0).0)
  unfolding write
  write_returned {V} fn s v h =
      let acted = fn (begin_transaction s).0 in
      elim (Bool-cases (begin_transaction s).1) [
        | inr b ↦ absurd (refused (sym (rw (write, b) refl) ∙ h))
        | inl b ↦ elim (Option-cases acted.1) [
          | inl q ↦ absurd (refused (sym (rw (write, b, q) refl) ∙ h))
          | inr (u, q) ↦ elim (Bool-cases (commit_transaction acted.0).1) [
            | inr d ↦ absurd (refused (sym (rw (write, b, q, d) refl) ∙ h))
            | inl d ↦ (q ∙ sym (rw (write, b, q, d, q) refl) ∙ h, d, rw (write, b, q, d) refl)
          ]
        ]
      ]
