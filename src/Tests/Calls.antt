-- ===== src/Tests/Calls.antt =====
-- Examples of the outbox, the circuit breaker and the idempotency keys.
use readyon.Base.{
  false, ◌≡◌, refl, arith, none, some, [], ◌∷◌, pos, ◌-ℤ◌, ◌≤◌, ◌⊎◌, find_first, any, ℕ,
}
use readyon.Types.{transient, permanent}
use readyon.Errors.{AppError, hcm_error, type_error}
use readyon.Store.{M, ok, raise, pure, IsAtomic, Returns, Ensures, run_in_transaction}
use readyon.Balance.Repository.{get_effective_available, find_by_employee_and_type}
use readyon.Request.Repository.{find_by_id}
use readyon.Request.Service.{CreatedRequest}
use readyon.Outbox.Processor.{settle_post, on_error, sweep}
use readyon.Outbox.Repository.{claim_pending_entries, select_pending}
use readyon.Outbox.Claims.{is_among, claim_pending_entries-exclusive}
use readyon.Outbox.Settlement.{Overtaken, Accepted, settle_post-IsAtomic}
use readyon.Outbox.Settlement.Available.{settle_post-available}
use readyon.Outbox.Failures.{Handled, on_error-Handled, sweep_returns}
use readyon.Hcm.Port.{HcmAdapterPort, HcmPostTimeOffResponse}
use readyon.Hcm.CircuitBreaker.{new_breaker, CircuitBreaker, open_circuit}
use readyon.Hcm.CircuitBreaker.Failures.{run, succeeds, fails, fail_at, IsOpenSince, failures_open}
use readyon.Idempotency.{check, idempotent}
use readyon.Idempotency.Replay.{later, expired_key_unprotected}
use readyon.Api.{Headers, post_request}
use readyon.Api.Creation.{post_request_once}
use readyon.Tests.Office.{office, tables, entry, sent, projection, dto}

abbrev accepted_answer : HcmPostTimeOffResponse
accepted_answer = record { hcm_reference_id = some 55; hcm_version = 4 }

settle_post-IsAtomic_example :
    IsAtomic tables
      (λ _ w.
        Overtaken entry 5 7 (pos 4) accepted_answer office w
        ⊎ Accepted entry 5 7 (pos 4) accepted_answer office w)
      (run_in_transaction (settle_post entry 5 7 (pos 4) accepted_answer) office)
settle_post-IsAtomic_example = settle_post-IsAtomic entry 5 7 (pos 4) accepted_answer office

settle_post-available_example :
    Returns
      (λ _ w.
        get_effective_available 5 7 1 none w.db
        ≡ get_effective_available 5 7 1 (some 21) tables -ℤ pos 4)
      (run_in_transaction (settle_post entry 5 7 (pos 4) accepted_answer) office)
unfolding find_by_id find_by_employee_and_type find_first
settle_post-available_example =
    settle_post-available entry 5 7 (pos 4) accepted_answer office sent projection refl refl refl
      refl

-- An adapter whose system is down.
abbrev down : HcmAdapterPort
down = record {
  get_balance = λ _ _ _. raise (hcm_error transient 1 2);
  post_time_off = λ _. raise (hcm_error transient 1 2);
  cancel_time_off = λ _. raise (hcm_error permanent 3 4);
  get_batch_balances = λ _ _. raise (hcm_error transient 1 2);
}

abbrev no_message : AppError → ℕ
no_message _ = 9

on_error-Handled_example :
    Ensures (λ _. Handled entry office) (on_error down no_message entry type_error office)
on_error-Handled_example = on_error-Handled down no_message entry type_error office

claim_pending_entries-exclusive_example :
    Ensures
      (λ claimed w. any (is_among claimed) (select_pending 2000 10 w.db) ≡ false)
      (claim_pending_entries 10 office)
claim_pending_entries-exclusive_example = claim_pending_entries-exclusive 10 10 2000 office

sweep_returns_example : Ensures (λ n _. n ≤ 10) (sweep down no_message office)
sweep_returns_example = sweep_returns down no_message office

-- Five failures, the last at 100, open the breaker for 1000.
failures_open_example : IsOpenSince 100 1000 (
    run
      (run (new_breaker 5 1000) (fail_at (10 ∷ 30 ∷ 60 ∷ 70 ∷ []) 100))
      (succeeds 200 ∷ fails 1099 ∷ []))
failures_open_example =
    failures_open (10 ∷ 30 ∷ 60 ∷ 70 ∷ []) 100 1000 (succeeds 200 ∷ fails 1099 ∷ [])
      (omega arith, (omega arith, tt))

abbrev tripped : CircuitBreaker
tripped = record {
  state = open_circuit;
  consecutive_failures = 5;
  last_failure_time = 100;
  failure_threshold = 5;
  cooldown_ms = 1000;
}

abbrev headers : Headers
headers = record {
  employee_id = 5;
  manager_id = none;
  idempotency_key = some 75;
  correlation_id = none;
}

abbrev response_text : CreatedRequest → ℕ
response_text r = r.id

post_request_once_example :
    Returns
      (λ response w.
        post_request 76 headers response_text dto (later 60000 w) ≡ ok response (later 60000 w))
      (post_request 76 headers response_text dto office)
unfolding check find_first any
post_request_once_example =
    post_request_once 76 headers response_text dto 75 60000 office refl refl refl refl (λ a b h. h)
      (omega arith)

abbrev work : M ℕ
work = pure 3

expired_key_unprotected_example :
    Returns
      (λ _ w. (w.db.keys ≡ tables.keys) × ((ms : ℕ) → check 70 (later ms w) ≡ none))
      (idempotent (λ n. n) 76 200 work (some 70) office)
unfolding check find_first any
expired_key_unprotected_example =
    expired_key_unprotected (λ n. n) 76 200 work 70 office refl refl refl (refl, refl, refl)
      (λ a b h. h)
