-- ===== src/Hcm/MockAdapter/Replay.antt =====
-- The map of responses in src/integration/hcm/mock-hcm-adapter.ts.
use readyon.Base.{
  ⊤, ◌-ℤ◌, ltb_ℤ, true, Bool-cases, none, some, List, find_first, ◌≡◌, refl, inl, inr, Option-cases,
  find_first-append_new, find_first-append_some, set_entry-none, arith,
}
use readyon.Types.{IdempotencyKey, same_key}
use readyon.Hcm.Port.{HcmPostTimeOffRequest, HcmCancelTimeOffRequest}
use readyon.Hcm.MockAdapter.Faults.{Check, passes, fires, check_failure, posting}
use readyon.Hcm.MockAdapter.State.{
  MockBalance, MockResponse, StoredResponse, MockHcm, is_stored_under, is_balance_of, set_balance,
}
use readyon.Hcm.MockAdapter.Calls.{
  Instant, Ended, replies, throws, has_reference, count_duplicate, deduct_hours, apply_post,
  apply_cancel, answer_post, after_check, accepted, provisioned,
}
use readyon.Hcm.MockAdapter.Steps.{Event, run}
use readyon.Hcm.MockAdapter.Invariants.{Conditions, Allowed, run-keeps}

key_self : (k : IdempotencyKey) → same_key k k ≡ true
key_self (IdempotencyKey.pto_key r u) = ground arith
key_self (IdempotencyKey.cancel_key r u) = ground arith

-- A response that is kept under a key.
abbrev Keeps : IdempotencyKey → StoredResponse → MockHcm → Type 0
Keeps k x s = find_first (is_stored_under k) s.idempotency_store ≡ some x

deduct_hours-Keeps :
    (k : IdempotencyKey) (x : StoredResponse) (r : HcmPostTimeOffRequest) (now : Instant)
    (b : MockBalance) (s : MockHcm)
    → find_first (is_stored_under r.idempotency_key) s.idempotency_store ≡ none
    → Keeps k x s
    → Keeps k x (deduct_hours r now b s).1
unfolding deduct_hours
deduct_hours-Keeps k x r now b s missing h =
    elim (Bool-cases (ltb_ℤ (b.total_balance -ℤ b.used_balance) r.hours)) [
      | inl c ↦ rw c h
      | inr c ↦
          rw (c, set_entry-none (is_stored_under r.idempotency_key) s.idempotency_store _ missing)
            (find_first-append_some (is_stored_under k) s.idempotency_store _ x h)
    ]

apply_post-Keeps :
    (k : IdempotencyKey) (x : StoredResponse) (r : HcmPostTimeOffRequest) (now : Instant)
    (s : MockHcm)
    → find_first (is_stored_under r.idempotency_key) s.idempotency_store ≡ none
    → Keeps k x s
    → Keeps k x (apply_post r now s).1
unfolding apply_post
apply_post-Keeps k x r now s missing h =
    elim (Option-cases (find_first (is_balance_of r.employee_id r.leave_type) s.balances)) [
      | inl n ↦
          rw (n, apply_post)
            (deduct_hours-Keeps k x r now (provisioned r.employee_id r.leave_type now) _ missing h)
      | inr (b, found) ↦ rw (found, apply_post) (deduct_hours-Keeps k x r now b s missing h)
    ]

apply_cancel-Keeps :
    (k : IdempotencyKey) (x : StoredResponse) (r : HcmCancelTimeOffRequest) (now : Instant)
    (s : MockHcm)
    → find_first (is_stored_under r.idempotency_key) s.idempotency_store ≡ none
    → Keeps k x s
    → Keeps k x (apply_cancel r now s).1
unfolding apply_cancel
apply_cancel-Keeps k x r now s missing h =
    elim (Option-cases (find_first (has_reference r.hcm_reference_id) s.deductions)) [
      | inl n ↦ rw (n, apply_cancel) h
      | inr (d, found) ↦
          rw
            (
              found,
              apply_cancel,
              set_entry-none (is_stored_under r.idempotency_key) s.idempotency_store _ missing,
            )
            (find_first-append_some (is_stored_under k) s.idempotency_store _ x h)
    ]

-- A call that replies has its response under its key.
abbrev Recorded : IdempotencyKey → Ended MockResponse → Type 0
Recorded k (replies a, s) = (x : StoredResponse) × Keeps k x s × (x.response ≡ a)
Recorded k (throws e, s) = Unit

deduct_hours-Recorded :
    (r : HcmPostTimeOffRequest) (now : Instant) (b : MockBalance) (s : MockHcm)
    → find_first (is_stored_under r.idempotency_key) s.idempotency_store ≡ none
    → Recorded r.idempotency_key (deduct_hours r now b s)
unfolding deduct_hours
deduct_hours-Recorded r now b s missing =
    elim (Bool-cases (ltb_ℤ (b.total_balance -ℤ b.used_balance) r.hours)) [
      | inl c ↦ rw (c, Recorded) tt
      | inr c ↦
          let x : StoredResponse = record {
            key = r.idempotency_key;
            response = accepted now;
            timestamp = now.ms;
          } in
          rw
            (
              c,
              Recorded,
              set_entry-none (is_stored_under r.idempotency_key) s.idempotency_store x missing,
            )
            (
              x,
              find_first-append_new (is_stored_under r.idempotency_key) s.idempotency_store x
                  missing (key_self r.idempotency_key),
              refl,
            )
    ]

apply_post-Recorded :
    (r : HcmPostTimeOffRequest) (now : Instant) (s : MockHcm)
    → find_first (is_stored_under r.idempotency_key) s.idempotency_store ≡ none
    → Recorded r.idempotency_key (apply_post r now s)
unfolding apply_post
apply_post-Recorded r now s missing =
    elim (Option-cases (find_first (is_balance_of r.employee_id r.leave_type) s.balances)) [
      | inl n ↦
          rw (n, apply_post)
            (deduct_hours-Recorded r now (provisioned r.employee_id r.leave_type now) _ missing)
      | inr (b, found) ↦ rw (found, apply_post) (deduct_hours-Recorded r now b s missing)
    ]

answer_post-Recorded :
    (r : HcmPostTimeOffRequest) (now : Instant) (s : MockHcm)
    → Recorded r.idempotency_key (answer_post r now s)
unfolding answer_post
answer_post-Recorded r now s =
    elim (Option-cases (find_first (is_stored_under r.idempotency_key) s.idempotency_store)) [
      | inl n ↦
          rw (n, answer_post)
            (checked (check_failure posting r.employee_id s.failure_configs) refl n)
      | inr (x, found) ↦ rw (found, answer_post, Recorded) (x, found, refl)
    ]
  where
    checked :
        (c : Check)
        → check_failure posting r.employee_id s.failure_configs ≡ c
        → find_first (is_stored_under r.idempotency_key) s.idempotency_store ≡ none
        → Recorded r.idempotency_key
            (after_check posting r.employee_id r.correlation_id (apply_post r now) s)
    checked (passes cs) q n =
        rw (q, after_check) (apply_post-Recorded r now (record s { failure_configs = cs }) n)
    checked (fires mode cs) q n = rw (q, after_check, Recorded) tt

set_balance-Keeps :
    (k : IdempotencyKey) (x : StoredResponse) (b : MockBalance) (s : MockHcm)
    → Keeps k x s
    → Keeps k x (set_balance b s)
unfolding set_balance
set_balance-Keeps k x b s h = h

-- Anything but a reset.
abbrev pub no_reset : Conditions
no_reset = record { on_post = λ _. ⊤; on_balance = λ _. ⊤; on_reset = ⊥ }

-- When a post has replied, then whatever happens next, of calls, settings and failures, but no reset
-- of the adapter, another post under its key is answered with the same response, and only counts as
-- a duplicate, whatever else it asks for.
pub post_replayed :
    (r : HcmPostTimeOffRequest) (now : Instant) (s : MockHcm) (a : MockResponse) (after : MockHcm)
    → answer_post r now s ≡ (replies a, after)
    → (es : List Event) → Allowed no_reset es
    → (again : HcmPostTimeOffRequest) (later : Instant) → again.idempotency_key ≡ r.idempotency_key
    → answer_post again later (run es after) ≡ (replies a, count_duplicate (run es after))
unfolding answer_post
post_replayed r now s a after e es allowed again later same =
    let (x, kept, q) = rw e at (answer_post-Recorded r now s) in
    let stays =
      run-keeps (Keeps r.idempotency_key x) (λ s s' e h. rw e.1 h) no_reset
        (λ r' now s _ n h. apply_post-Keeps r.idempotency_key x r' now s n h)
        (λ r' now s n h. apply_cancel-Keeps r.idempotency_key x r' now s n h)
        (λ b s _ h. set_balance-Keeps r.idempotency_key x b s h) (λ never. absurd never) es after
        allowed kept in
    rw (same, stays, answer_post, q) refl
