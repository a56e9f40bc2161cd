-- ===== src/Tests/Adapters.antt =====
-- Examples of the mock adapter: a post, a cancellation, and what happens in between.
use readyon.Base.{
  pos, ◌-ℤ◌, List, [], ◌∷◌, ◌++◌, none, some, ◌≡◌, refl, find_first, any, set_entry, arith,
}
use readyon.Types.{pto_key, cancel_key}
use readyon.Hcm.Port.{HcmPostTimeOffRequest, HcmCancelTimeOffRequest}
use readyon.Hcm.MockAdapter.Faults.{posting, FailureConfig, timeout}
use readyon.Hcm.MockAdapter.State.{MockBalance, MockHcm, new_mock}
use readyon.Hcm.MockAdapter.Calls.{
  Instant, replies, accepted, answer_post, answer_cancel, count_duplicate,
}
use readyon.Hcm.MockAdapter.Steps.{
  Event, starts, posts, cancels, adds_failure, sets_balance, resets, run,
}
use readyon.Hcm.MockAdapter.Ledger.{Booked}
use readyon.Hcm.MockAdapter.Totals.{run-Booked, new_mock-Booked}
use readyon.Hcm.MockAdapter.Bounds.{Funded, run-Funded, new_mock-Funded}
use readyon.Hcm.MockAdapter.Replay.{post_replayed}
use readyon.Hcm.MockAdapter.RoundTrip.{Restored, cancel_post}
use readyon.Hcm.MockAdapter.Countdown.{outcomes, expected, countdown_then_failures}

abbrev asked : HcmPostTimeOffRequest
asked = record {
  idempotency_key = pto_key 11 12;
  employee_id = 5;
  leave_type = 7;
  start_date = 21;
  end_date = 22;
  hours = pos 8;
  correlation_id = 31;
}

abbrev withdrawn : HcmCancelTimeOffRequest
withdrawn = record {
  idempotency_key = cancel_key 11 13;
  hcm_reference_id = some 41;
  employee_id = 5;
  leave_type = 7;
  correlation_id = 32;
}

abbrev instant : Instant
instant = record { iso = 100; later_iso = 101; ms = 1; reference_id = 41 }

abbrev rule : FailureConfig
rule = record {
  mode = timeout;
  countdown = 1;
  failure_count = pos 2;
  operation = some posting;
  employee_id = none;
}

abbrev happened : List Event
happened =
    starts posting 5 ∷ adds_failure rule ∷ posts asked instant ∷ cancels withdrawn instant ∷ []

run-Booked_example : Booked (λ _ _. pos 0) (run (resets ∷ happened) new_mock)
run-Booked_example =
    run-Booked (λ _ _. pos 0) (resets ∷ happened) new_mock
      ((λ _ _. refl), (tt, (tt, (tt, (tt, tt))))) new_mock-Booked

abbrev forty : MockBalance
forty = record {
  employee_id = 5;
  leave_type = 7;
  total_balance = pos 40;
  used_balance = pos 8;
  hcm_version = 3;
}

-- The balance is set, before the same and a reset.
abbrev set_up : List Event
set_up = sets_balance forty ∷ (happened ++ resets ∷ [])

run-Funded_example : Funded (run set_up new_mock)
run-Funded_example =
    run-Funded set_up new_mock (ground arith, (tt, (tt, (ground arith, (tt, (tt, tt))))))
      new_mock-Funded

abbrev after_post : MockHcm
unfolding answer_post
after_post = (answer_post asked instant new_mock).1

post_replayed_example :
    answer_post asked instant (run (sets_balance forty ∷ happened) after_post)
    ≡ (replies (accepted instant), count_duplicate (run (sets_balance forty ∷ happened) after_post))
unfolding answer_post find_first new_mock ◌-ℤ◌
post_replayed_example =
    post_replayed asked instant new_mock (accepted instant) after_post refl
      (sets_balance forty ∷ happened) (tt, (tt, (tt, (tt, (tt, tt))))) asked instant refl

cancel_post_example : Restored new_mock (answer_cancel withdrawn instant after_post)
unfolding find_first new_mock any answer_post ◌-ℤ◌ set_entry
cancel_post_example =
    cancel_post asked instant new_mock (accepted instant) after_post refl refl refl withdrawn
      instant [] refl refl refl

countdown_then_failures_example : outcomes 5 posting 5 (rule ∷ []) ≡ expected 1 2 5
countdown_then_failures_example = countdown_then_failures 1 1 5 posting 5 rule refl refl refl refl
