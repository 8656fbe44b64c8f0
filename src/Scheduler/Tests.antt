-- ===== src/Scheduler/Tests.antt =====
-- Two threads that invoke 5 and 6, with one wakeup for both.
use barq_native.Prelude.{ℕ, ◌≡◌, refl, false, [], ◌∷◌, ◌++◌}
use barq_native.Scheduler.{
  State, initial, push, invoke, async_send, swap, on_async, call, invokes, sends, wakes, calls,
  Steps, here, then_step,
}
use barq_native.Scheduler.Interleavings.{Steps-in_order}
use barq_native.Scheduler.Wakeups.{IsServed, Steps-IsServed, Steps-drain}

abbrev both_invoked : State ℕ
unfolding invoke initial
both_invoked = invoke ℕ 6 (invoke ℕ 5 (initial ℕ))

invoke_twice : Steps ℕ (initial ℕ) (5 ∷ 6 ∷ []) both_invoked
unfolding invoke initial
invoke_twice = then_step (then_step here (invokes 5 refl)) (invokes 6 refl)

-- The loop has called 5, and is to call 6, while one call of uv_async_send is still to come.
abbrev half_way : State ℕ
half_way = record {
  functions = [];
  running = 6 ∷ [];
  called = 5 ∷ [];
  in_flight = 1;
  pending = false;
  close_requested = false;
  closed = false;
}

to_half_way : Steps ℕ (initial ℕ) (5 ∷ 6 ∷ []) half_way
unfolding invoke initial push async_send on_async swap call
to_half_way =
    then_step (then_step (then_step invoke_twice (sends 1 refl)) (wakes refl refl refl))
      (calls 5 (6 ∷ []) refl)

Steps-in_order_example : half_way.called ++ (half_way.running ++ half_way.functions) ≡ 5 ∷ 6 ∷ []
Steps-in_order_example = Steps-in_order to_half_way

Steps-IsServed_example : IsServed half_way
Steps-IsServed_example = Steps-IsServed to_half_way

Steps-drain_example : (u : State ℕ) × Steps ℕ half_way [] u × (u.called ≡ 5 ∷ 6 ∷ [])
Steps-drain_example = Steps-drain to_half_way refl
