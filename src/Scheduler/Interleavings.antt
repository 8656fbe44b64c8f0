-- ===== src/Scheduler/Interleavings.antt =====
-- Whatever the threads do, functions are called in the order in which they were invoked.
use barq_native.Prelude.{
  ◌≡◌, refl, sym, ap, ◌∙◌, List, [], ◌∷◌, ◌++◌, append_assoc, append-nil, Bool-cases, inl, inr,
}
use barq_native.Scheduler.{
  State, initial, invoke, async_send, on_async, call, destroy, Step, invokes, sends, wakes, calls,
  destroys, Steps, here, then_step,
}

module _ {Function : Type 0} where
  -- All functions that the scheduler has or has had, in the order of their calls.
  abbrev pub line : State Function → List Function
  line s = s.called ++ (s.running ++ s.functions)

  Step-line :
      {s t : State Function} {more : List Function}
      → Step Function s more t
      → line t ≡ line s ++ more
  unfolding invoke async_send on_async call destroy
  Step-line (invokes {s = s} fn o) = sym (
      append_assoc s.called (s.running ++ s.functions) (fn ∷ [])
      ∙ ap (s.called ++◌) (append_assoc s.running s.functions (fn ∷ [])))
  Step-line (sends {s = s} left e) = sym (append-nil (line s))
  Step-line (wakes {s = s} p r c) = elim (Bool-cases s.close_requested) [
    | inl e ↦ rw (e, append-nil (line s)) refl
    | inr e ↦ rw (e, r, append-nil s.functions, append-nil (s.called ++ s.functions)) refl
  ]
  Step-line (calls {s = s} fn rest e) =
      rw (e, append-nil (s.called ++ fn ∷ (rest ++ s.functions)))
        (append_assoc s.called (fn ∷ []) (rest ++ s.functions))
  Step-line (destroys {s = s} o) = sym (append-nil (line s))

  -- In every reachable state, the functions that were called, those that a run of the queue is still
  -- to call, and those in the queue are, in this order, the functions that were invoked: none is
  -- called twice or before one that was invoked earlier.
  pub Steps-line :
      {s t : State Function} {invoked : List Function}
      → Steps Function s invoked t
      → line t ≡ line s ++ invoked
  Steps-line {s = s} here = sym (append-nil (line s))
  Steps-line {s = s} (then_step {invoked = invoked} {more = more} before step) =
      Step-line step ∙ ap (◌++ more) (Steps-line before) ∙ append_assoc (line s) invoked more

  -- Whatever the threads do, the functions that were called, those that a run of the queue is
  -- still to call, and those in the queue are, in this order, the functions that were invoked:
  -- each is called at most once, and none before one that was invoked earlier.
  pub Steps-in_order :
      {t : State Function} {invoked : List Function}
      → Steps Function (initial Function) invoked t
      → t.called ++ (t.running ++ t.functions) ≡ invoked
  unfolding initial
  Steps-in_order run = Steps-line run
