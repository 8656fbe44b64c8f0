-- ===== src/Session.antt =====
-- src/barq_native/internal/bridge/sync_session.cpp: the handle of a session for sync, which holds a
-- weak pointer to the session of core, and the futures that wait for it.
pub mod Futures
mod Tests
use barq_native.Prelude.{ℕ, zero, suc, ◌≡◌, Bool, true, false, Option, none, some, if◌then◌else◌}
use barq_native.Configuration.{replace}

-- What core does with a session that is alive
pub record CoreSession : Type 1 where
  pub State : Type 0
  pub state : State → ℕ
  pub connection_state : State → ℕ
  pub pause : State → State
  pub resume : State → State
  pub handle_reconnect : State → State
  pub register_connection_change_callback : State → State × ℕ
  pub unregister_connection_change_callback : ℕ → State → State
  pub wait_for_completion : Bool → State → State

-- What a std::future has: nothing yet, a value, the error code of a status, the exception for a
-- session that is destroyed, or that for a promise that is destroyed
pub data Future : Type 0 where
  pending ready session_destroyed broken_promise : Future
  failed : ℕ → Future

-- What the callback does with its promise, by the code of the status, 0 when it is ok
abbrev pub settled : ℕ → Future
settled zero = ready
settled (suc code) = failed (suc code)

-- How a call ends
pub data Outcome : Type 0 where
  returned threw : Outcome
  gave : ℕ → Outcome

module _ (C : CoreSession) where
  open C use {
    State, handle_reconnect, register_connection_change_callback,
    unregister_connection_change_callback, wait_for_completion,
  }

  -- m_session, `none` when the session is destroyed; the futures that were made, by their numbers,
  -- and which of their promises are in a callback that core has
  pub record Session : Type 0 where
    pub m_session : Option State
    pub made : ℕ
    pub futures : ℕ → Future
    pub held : ℕ → Bool

  -- A call of core, by the session that lock gives
  abbrev locked : (State → State × Outcome) → Session → Session × Outcome
  locked f s = elim s.m_session [
    | none ↦ (s, threw)
    | some session ↦ (record s { m_session = some (f session).0 }, (f session).1)
  ]

  unfoldable pub state : Session → Session × Outcome
  state = locked λ session. (session, gave (C.state session))

  unfoldable pub connection_state : Session → Session × Outcome
  connection_state = locked λ session. (session, gave (C.connection_state session))

  unfoldable pub pause : Session → Session × Outcome
  pause = locked λ session. (C.pause session, returned)

  unfoldable pub resume : Session → Session × Outcome
  resume = locked λ session. (C.resume session, returned)

  unfoldable pub reconnect : Session → Session × Outcome
  reconnect = locked λ session. (handle_reconnect session, returned)

  unfoldable pub observe_connection_change : Session → Session × Outcome
  observe_connection_change = locked λ session. (
    (register_connection_change_callback session).0,
    gave (register_connection_change_callback session).1,
  )

  unfoldable pub unregister_connection_change_observer : ℕ → Session → Session × Outcome
  unregister_connection_change_observer token =
      locked λ session. (unregister_connection_change_callback token session, returned)

  -- wait_for_upload_completion and wait_for_download_completion with a callback of the caller
  unfoldable pub wait_with_callback : Bool → Session → Session × Outcome
  wait_with_callback upload = locked λ session. (wait_for_completion upload session, returned)

  -- Those that give a future: the promise goes to core, or has the exception at once.
  unfoldable pub wait_for_future : Bool → Session → Session × Outcome
  wait_for_future upload s = elim s.m_session [
    | none ↦ (
      record s { made = suc s.made; futures = replace s.futures s.made session_destroyed },
      gave s.made,
    )
    | some session ↦ (
      record s {
        m_session = some (wait_for_completion upload session);
        made = suc s.made;
        futures = replace s.futures s.made pending;
        held = replace s.held s.made true;
      },
      gave s.made,
    )
  ]

  -- The callback of such a wait, with the code of a status
  unfoldable pub complete : ℕ → ℕ → Session → Session
  complete i code s = record s {
    futures = replace s.futures i (settled code);
    held = replace s.held i false;
  }

  -- The destruction of a callback that was not called, with the promise in it
  unfoldable pub drop : ℕ → Session → Session
  drop i s = record s {
    futures = replace s.futures i broken_promise;
    held = replace s.held i false;
  }

  pub data Call : Type 0 where
    call_state call_connection_state call_pause call_resume call_reconnect call_observe : Call
    call_unregister : ℕ → Call
    call_wait call_future : Bool → Call

  unfoldable pub call : Call → Session → Session × Outcome
  unfolding state connection_state pause resume reconnect observe_connection_change
      unregister_connection_change_observer wait_with_callback wait_for_future
  call call_state = state
  call call_connection_state = connection_state
  call call_pause = pause
  call call_resume = resume
  call call_reconnect = reconnect
  call call_observe = observe_connection_change
  call (call_unregister token) = unregister_connection_change_observer token
  call (call_wait upload) = wait_with_callback upload
  call (call_future upload) = wait_for_future upload

  -- A call of the handle; a callback that core has is called or destroyed; core changes or destroys the
  -- session.
  pub data Step (s : Session) : Session → Type 0 where
    called : (c : Call) → Step s (call c s).0
    completed : (i code : ℕ) → s.held i ≡ true → Step s (complete i code s)
    dropped : (i : ℕ) → s.held i ≡ true → Step s (drop i s)
    core_changes : (session : Option State) → Step s (record s { m_session = session })

  unfoldable pub start : State → Session
  start session = record {
    m_session = some session;
    made = 0;
    futures = λ i. pending;
    held = λ i. false;
  }

  pub data Steps (s : Session) : Session → Type 0 where
    none_yet : Steps s s
    next : {t u : Session} → Steps s t → Step t u → Steps s u
