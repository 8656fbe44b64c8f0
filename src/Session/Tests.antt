-- ===== src/Session/Tests.antt =====
-- A session that counts its changes; one upload is waited for and fails, and then core drops the
-- session.
use barq_native.Prelude.{ℕ, suc, ◌≡◌, refl, true, none}
use barq_native.Session.{
  CoreSession, Session, call_future, call, wait_for_future, complete, called, completed,
  core_changes, start, Steps, none_yet, next,
}
use barq_native.Session.Futures.{IsAwaited, Steps-IsAwaited}

abbrev counter : CoreSession
counter = record {
  State = ℕ;
  state = λ s. 0;
  connection_state = λ s. 2;
  pause = suc;
  resume = suc;
  handle_reconnect = suc;
  register_connection_change_callback = λ s. (suc s, s);
  unregister_connection_change_callback = λ token s. suc s;
  wait_for_completion = λ upload s. suc s;
}

abbrev waiting : Session counter
waiting = (call counter (call_future true) (start counter 0)).0

abbrev finished : Session counter
finished = record (complete counter 0 7 waiting) { m_session = none }

waiting-held : waiting.held 0 ≡ true
unfolding call wait_for_future start
waiting-held = refl

history : Steps counter (start counter 0) finished
history =
    next (next (next none_yet (called (call_future true))) (completed 0 7 waiting-held))
      (core_changes none)

Steps-IsAwaited_example : IsAwaited counter finished
Steps-IsAwaited_example = Steps-IsAwaited counter 0 history
