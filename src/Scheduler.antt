-- ===== src/Scheduler.antt =====
-- src/barq_native/schedulers/default_scheduler.cpp: the invocation queue and the scheduler of the
-- libuv event loop. Threads interleave at the lock of the queue and at uv_async_send, so a state is
-- what the scheduler's data hold between two such points.
pub mod Interleavings
pub mod Wakeups
mod Tests
use barq_native.Prelude.{ℕ, zero, suc, ◌≡◌, Bool, true, false, List, [], ◌∷◌, ◌++◌, if◌then◌else◌}

module _ (Function : Type 0) where
  -- `data` of uv_scheduler with its handle. `in_flight` counts the calls of uv_async_send that are
  -- still to come, and `pending` is libuv's note that the callback is to run. `running` has the
  -- functions of a call of invoke_all that are still to be called, `called` those that were.
  pub record State : Type 0 where
    pub functions : List Function
    pub running : List Function
    pub called : List Function
    pub in_flight : ℕ
    pub pending : Bool
    pub close_requested : Bool
    pub closed : Bool

  unfoldable pub initial : State
  initial = record {
    functions = [];
    running = [];
    called = [];
    in_flight = 0;
    pending = false;
    close_requested = false;
    closed = false;
  }

  -- invocation_queue::push
  unfoldable pub push : Function → State → State
  push fn s = record s { functions = s.functions ++ fn ∷ [] }

  -- invoke up to uv_async_send
  unfoldable pub invoke : Function → State → State
  unfolding push
  invoke fn s = record (push fn s) { in_flight = suc s.in_flight }

  -- A call of uv_async_send: calls that come before the callback runs coalesce.
  unfoldable pub async_send : ℕ → State → State
  async_send left s = record s { in_flight = left; pending = true }

  -- invocation_queue::invoke_all up to the loop
  unfoldable pub swap : State → State
  swap s = record s { functions = []; running = s.functions }

  -- The callback of the event loop up to the loop of invoke_all.
  unfoldable pub on_async : State → State
  unfolding swap
  on_async s =
      if s.close_requested
      then record s { pending = false; closed = true }
      else record (swap s) { pending = false }

  -- A round of the loop of invoke_all.
  unfoldable pub call : Function → List Function → State → State
  call fn rest s = record s { running = rest; called = s.called ++ fn ∷ [] }

  -- ~uv_scheduler up to uv_async_send
  unfoldable pub destroy : State → State
  destroy s = record s { close_requested = true; in_flight = suc s.in_flight }

  -- A step of some thread. A function that is called may itself invoke another. The event loop runs
  -- one callback at a time, and a scheduler that is being destroyed is not used.
  pub data Step : State → List Function → State → Type 0 where
    invokes :
        {s : State} (fn : Function) → s.close_requested ≡ false → Step s (fn ∷ []) (invoke fn s)
    sends : {s : State} (left : ℕ) → s.in_flight ≡ suc left → Step s [] (async_send left s)
    wakes :
        {s : State} → s.pending ≡ true → s.running ≡ [] → s.closed ≡ false → Step s [] (on_async s)
    calls :
        {s : State} (fn : Function) (rest : List Function)
        → s.running ≡ fn ∷ rest
        → Step s [] (call fn rest s)
    destroys : {s : State} → s.close_requested ≡ false → Step s [] (destroy s)

  -- The states that steps lead to, with the functions that were invoked on the way, in their order.
  pub data Steps (s : State) : List Function → State → Type 0 where
    here : Steps s [] s
    then_step :
        {invoked more : List Function} {t u : State}
        → Steps s invoked t
        → Step t more u
        → Steps s (invoked ++ more) u
