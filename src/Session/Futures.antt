-- ===== src/Session/Futures.antt =====
-- The futures of a session, whatever happens to it.
use barq_native.Prelude.{
  ℕ, zero, suc, ◌≡◌, refl, Bool, true, false, ◌&&◌, ltb, Option-cases, inl, inr, arith,
}
use barq_native.Configuration.{replace}
use barq_native.Session.{
  CoreSession, Future, pending, broken_promise, Session, Call, call_state, call_future, call, Step,
  called, completed, dropped, core_changes, start, Steps, none_yet, next, complete, drop, settled,
  wait_for_future, state, connection_state, pause, resume, reconnect, observe_connection_change,
  unregister_connection_change_observer, wait_with_callback,
}

abbrev pub is_pending : Future → Bool
is_pending pending = true
is_pending _ = false

module _ (C : CoreSession) where
  -- Core has the promise of a future exactly when the future was made and is pending.
  abbrev pub IsAwaited : Session C → Type 0
  IsAwaited s = (i : ℕ) → s.held i ≡ (ltb i s.made && is_pending (s.futures i))

  future-IsAwaited :
      (upload : Bool) (s : Session C) → IsAwaited s → IsAwaited (wait_for_future C upload s).0
  unfolding wait_for_future
  future-IsAwaited upload s h i = elim (Option-cases s.m_session) [
    | inl e ↦ rw (wait_for_future, e) (ground (arith, h i))
    | inr (session, e) ↦ rw (wait_for_future, e) (ground (arith, h i))
  ]

  call-IsAwaited : (c : Call C) (s : Session C) → IsAwaited s → IsAwaited (call C c s).0
  unfolding call state connection_state pause resume reconnect observe_connection_change
      unregister_connection_change_observer wait_with_callback
  call-IsAwaited (call_future upload) s h = future-IsAwaited upload s h
  call-IsAwaited call_state s h = λ i. ground (arith, h i)
  call-IsAwaited c s h = λ i. ground (arith, h i)

  resolved :
      (i : ℕ) (f : Future) (s : Session C)
      → is_pending f ≡ false
      → IsAwaited s
      → (j : ℕ) → replace s.held i false j ≡ (ltb j s.made && is_pending (replace s.futures i f j))
  resolved i f s e h j = ground (arith, e, h j)

  settled-resolved : (code : ℕ) → is_pending (settled code) ≡ false
  settled-resolved zero = refl
  settled-resolved (suc code) = refl

  Step-IsAwaited : {s t : Session C} → Step C s t → IsAwaited s → IsAwaited t
  unfolding complete drop
  Step-IsAwaited (called c) h = call-IsAwaited c _ h
  Step-IsAwaited {s} (completed i code held) h =
      resolved i (settled code) s (settled-resolved code) h
  Step-IsAwaited {s} (dropped i held) h = resolved i broken_promise s refl h
  Step-IsAwaited (core_changes session) h = h

  -- From a session that is alive and has no futures, whatever calls are made and however core
  -- completes or destroys the callbacks that it has, and changes or destroys the session, core
  -- has the promise of a future exactly when the future was made and is pending: no future that
  -- is pending is forgotten, none is resolved twice, and one that is asked of a destroyed session
  -- is resolved at once.
  pub Steps-IsAwaited :
      (session : C.State) {s : Session C} → Steps C (start C session) s → IsAwaited s
  unfolding start
  Steps-IsAwaited session none_yet = λ i. ground arith
  Steps-IsAwaited session (next steps step) = Step-IsAwaited step (Steps-IsAwaited session steps)
