-- ===== src/Scheduler/Wakeups.antt =====
-- No function that was invoked is forgotten: a wakeup is on its way, and it leads to the call.
use barq_native.Prelude.{
  ℕ, suc, ◌≡◌, refl, sym, subst, ◌∙◌, true, false, List, [], ◌∷◌, ◌++◌, append_assoc, append-nil,
  Bool-cases, inl, inr, arith,
}
use barq_native.Scheduler.{
  State, initial, invoke, async_send, on_async, call, destroy, Step, invokes, sends, wakes, calls,
  destroys, Steps, here, then_step,
}
use barq_native.Scheduler.Interleavings.{Steps-in_order}

module _ {Function : Type 0} where
  -- Nothing is queued, or the callback is to run, or uv_async_send is to be called, or the scheduler
  -- is being destroyed.
  pub data IsServed (s : State Function) : Type 0 where
    quiet : s.functions ≡ [] → IsServed s
    signalled : s.pending ≡ true → IsServed s
    sending : (left : ℕ) → s.in_flight ≡ suc left → IsServed s
    shut : s.close_requested ≡ true → IsServed s

  Step-IsServed :
      {s t : State Function} {more : List Function}
      → Step Function s more t
      → IsServed s
      → IsServed t
  unfolding invoke async_send on_async call destroy
  Step-IsServed (invokes {s = s} fn o) served = sending s.in_flight refl
  Step-IsServed (sends left e) served = signalled refl
  Step-IsServed (wakes {s = s} p r c) served = elim (Bool-cases s.close_requested) [
    | inl e ↦ shut (rw e refl)
    | inr e ↦ quiet (rw e refl)
  ]
  Step-IsServed (calls fn rest e) (quiet q) = quiet q
  Step-IsServed (calls fn rest e) (signalled p) = signalled p
  Step-IsServed (calls fn rest e) (sending left l) = sending left l
  Step-IsServed (calls fn rest e) (shut c) = shut c
  Step-IsServed (destroys o) served = shut refl

  -- No wakeup is lost: whatever the threads do, when the queue has functions, the callback of the
  -- event loop is to run, or a call of uv_async_send is still to come, or the scheduler is being
  -- destroyed.
  pub Steps-IsServed :
      {t : State Function} {invoked : List Function}
      → Steps Function (initial Function) invoked t
      → IsServed t
  unfolding initial
  Steps-IsServed here = quiet refl
  Steps-IsServed (then_step before step) = Step-IsServed step (Steps-IsServed before)

  followed_by :
      {s t u : State Function} {a b : List Function}
      → Steps Function s a t
      → Steps Function t b u
      → Steps Function s (a ++ b) u
  followed_by {s = s} {t = t} {a = a} first here =
      subst (λ x. Steps Function s x t) (sym (append-nil a)) first
  followed_by {s = s} {u = u} {a = a} first (then_step {invoked = i} {more = m} before step) =
      subst (λ x. Steps Function s x u) (append_assoc a i m)
        (then_step (followed_by first before) step)

  -- The state after the loop of invoke_all.
  abbrev after_loop : State Function → State Function
  after_loop s = record s { running = []; called = s.called ++ s.running }

  loop :
      (fs : List Function) (s : State Function)
      → s.running ≡ fs
      → Steps Function s [] (record s { running = []; called = s.called ++ fs })
  unfolding call
  loop [] s e =
      subst (λ r. Steps Function s [] (record s { running = r; called = s.called ++ [] })) e
        (rw (append-nil s.called) here)
  loop (f ∷ fs) s e =
      subst (λ c. Steps Function s [] (record s { running = []; called = c }))
        (append_assoc s.called (f ∷ []) fs)
        (followed_by (then_step here (calls f fs e)) (loop fs (call Function f fs s) refl))

  Step-open :
      {s t : State Function} {more : List Function}
      → Step Function s more t
      → (s.close_requested ≡ false → s.closed ≡ false)
      → t.close_requested ≡ false
      → t.closed ≡ false
  unfolding invoke async_send on_async call destroy
  Step-open (invokes fn o) h c = h c
  Step-open (sends left e) h c = h c
  Step-open (wakes {s = s} p r k) h c = elim (Bool-cases s.close_requested) [
    | inl e ↦ ground arith
    | inr e ↦ rw e k
  ]
  Step-open (calls fn rest e) h c = h c
  Step-open (destroys o) h c = cc

  Steps-open :
      {t : State Function} {invoked : List Function}
      → Steps Function (initial Function) invoked t
      → t.close_requested ≡ false
      → t.closed ≡ false
  unfolding initial
  Steps-open here c = refl
  Steps-open (then_step before step) c = Step-open step (Steps-open before) c

  -- From a state with a signal and an idle event loop: the callback, and the loop of invoke_all.
  woken :
      (s : State Function)
      → s.pending ≡ true
      → s.running ≡ []
      → s.closed ≡ false
      → s.close_requested ≡ false
      → (u : State Function) × Steps Function s [] u × (u.called ≡ s.called ++ s.functions)
  unfolding on_async
  woken s p r c o =
      let woke : Step Function s []
          (record s { functions = []; running = s.functions; pending = false }) =
        subst (Step Function s []) (rw o refl) (wakes p r c) in
      (_, followed_by (then_step here woke) (loop s.functions _ refl), refl)

  -- While the scheduler is not being destroyed, there is a way on, on which no function is
  -- invoked, after which every function that was invoked has been called, in the order of the
  -- invocations.
  pub Steps-drain :
      {t : State Function} {invoked : List Function}
      → Steps Function (initial Function) invoked t
      → t.close_requested ≡ false
      → (u : State Function) × Steps Function t [] u × (u.called ≡ invoked)
  unfolding async_send
  Steps-drain {t = t} {invoked = invoked} run o =
      let idle : Steps Function t [] (after_loop t) = loop t.running t refl in
      let whole : (t.called ++ t.running) ++ t.functions ≡ invoked =
        append_assoc t.called t.running t.functions ∙ Steps-in_order run in
      elim (Steps-IsServed run) [
        | quiet q ↦ (
          after_loop t,
          idle,
          sym (append-nil (t.called ++ t.running))
              ∙ subst (λ x. (t.called ++ t.running) ++ x ≡ invoked) q whole,
        )
        | signalled p ↦
            let (u, way, e) = woken (after_loop t) p refl (Steps-open run o) o in
            (u, followed_by idle way, e ∙ whole)
        | sending left l ↦
            let (u, way, e) =
              woken (async_send Function left (after_loop t)) refl refl (Steps-open run o) o in
            (u, followed_by (then_step idle (sends left l)) way, e ∙ whole)
        | shut c ↦ cc
      ]
