-- ===== src/Hcm/MockAdapter/Steps.antt =====
-- What happens in the adapter of src/integration/hcm/mock-hcm-adapter.ts, in the order in which it
-- happens: calls that start, calls that end after their delay, and every method that sets it up.
use readyon.Base.{ℕ, List, [], ◌∷◌}
use readyon.Types.{Text}
use readyon.Hcm.Port.{HcmPostTimeOffRequest, HcmCancelTimeOffRequest}
use readyon.Hcm.MockAdapter.Faults.{Operation, FailureMode, FailureConfig}
use readyon.Hcm.MockAdapter.State.{
  MockBalance, MockHcm, set_delay, add_failure, set_failure_mode, clear_failures, count_call,
  set_balance, set_balances, reset,
}
use readyon.Hcm.MockAdapter.Calls.{Instant, answer_get, answer_post, answer_cancel, answer_batch}

pub data Event : Type 0 where
  starts : Operation → Text → Event
  gets_balance : Text → Text → Text → Event
  posts : HcmPostTimeOffRequest → Instant → Event
  cancels : HcmCancelTimeOffRequest → Instant → Event
  gets_batch : Text → Text → Text → Instant → Event
  sets_delay : ℕ → Event
  adds_failure : FailureConfig → Event
  sets_failure_mode : FailureMode → ℕ → Event
  clears_failures : Event
  sets_balance : MockBalance → Event
  sets_balances : List MockBalance → Event
  resets : Event

unfoldable pub step : Event → MockHcm → MockHcm
unfolding count_call set_delay add_failure set_failure_mode clear_failures set_balance set_balances
    reset
step (starts o e) s = count_call o e s
step (gets_balance e t c) s = (answer_get e t c s).1
step (posts r now) s = (answer_post r now s).1
step (cancels r now) s = (answer_cancel r now s).1
step (gets_batch system since c now) s = (answer_batch system since c now s).1
step (sets_delay ms) s = set_delay ms s
step (adds_failure c) s = add_failure c s
step (sets_failure_mode m n) s = set_failure_mode m n s
step clears_failures s = clear_failures s
step (sets_balance b) s = set_balance b s
step (sets_balances bs) s = set_balances bs s
step resets s = reset s

unfoldable pub run : List Event → MockHcm → MockHcm
unfolding step
run [] s = s
run (e ∷ es) s = run es (step e s)
