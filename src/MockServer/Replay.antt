-- ===== src/MockServer/Replay.antt =====
-- The idempotency of `handlePostTimeOff` in src/mock-hcm-server/server.ts.
use readyon.Base.{
  ℤ, Bool-cases, Option, none, some, Option-cases, find_first, set_entry-none,
  find_first-append_new, ==_self, ◌≡◌, refl, inl, inr, arith,
}
use readyon.Types.{Text, or_null}
use readyon.Hcm.MockAdapter.Faults.{posting}
use readyon.MockServer.Rules.{
  RuleMode, RuleCheck, goes_on, should_fail, check_rules, get_failure_response,
}
use readyon.MockServer.State.{
  minus, less, number_of, Balance, Response, StoredReply, Server, Body, Moment, HoursField,
  missing_hours, no_integer, integer, is_reply_to, accepted_reply, respond,
}
use readyon.MockServer.Handlers.{
  is_balance_of, charge, deduct_from, post_hours, unless_replied, unless_failing,
  handle_post_time_off,
}

-- A good response is kept under the key.
abbrev IsKept : Text → Response × Server → Type 0
IsKept k (r, s) =
    r.status ≡ 200
    → (x : StoredReply) × (find_first (is_reply_to k) s.idempotency_store ≡ some x)
      × (x.response ≡ r)

never_good : (m : RuleMode) → (get_failure_response m).0 ≡ 200 → ⊥
unfolding get_failure_response
never_good m h = ground arith

module _ (undefined_text k : Text) (body : Body) (given : or_null body.idempotency_key ≡ some k)
    (now : Moment) where
  charge-IsKept :
      (hours : Option ℤ) (b : Balance) (s : Server)
      → find_first (is_reply_to k) s.idempotency_store ≡ none
      → IsKept k (charge undefined_text body hours now b s)
  unfolding charge
  charge-IsKept hours b s new =
      let x : StoredReply = record {
        key = k;
        response = respond 200 (accepted_reply now.fresh_id now.iso);
      } in
      elim (Bool-cases (less (minus b.total_balance b.used_balance) (number_of hours))) [
        | inl short ↦ rw (short, IsKept) (λ h. absurd (ground arith))
        | inr enough ↦
            rw (enough, given, IsKept, set_entry-none (is_reply_to k) s.idempotency_store x new)
              (λ _. (
                x,
                find_first-append_new (is_reply_to k) s.idempotency_store x new (==_self k),
                refl,
              ))
      ]

  deduct_from-IsKept :
      (hours : Option ℤ) (s : Server)
      → find_first (is_reply_to k) s.idempotency_store ≡ none
      → IsKept k (deduct_from undefined_text body hours now s)
  unfolding deduct_from
  deduct_from-IsKept hours s new =
      elim (Option-cases
        (find_first (is_balance_of undefined_text body.employee_id body.leave_type) s.balances)) [
          | inl gone ↦ rw (gone, deduct_from, IsKept) (λ h. absurd (ground arith))
          | inr (b, found) ↦ rw (found, deduct_from) (charge-IsKept hours b s new)
        ]

  post_hours-IsKept :
      (hours : HoursField) (s : Server)
      → find_first (is_reply_to k) s.idempotency_store ≡ none
      → IsKept k (post_hours undefined_text body hours now s)
  unfolding post_hours
  post_hours-IsKept missing_hours s new = deduct_from-IsKept none s new
  post_hours-IsKept no_integer s new = λ h. absurd (ground arith)
  post_hours-IsKept (integer n) s new = deduct_from-IsKept (some n) s new

  checked-IsKept :
      (s : Server) (c : RuleCheck)
      → check_rules posting body.employee_id s.failure_rules ≡ c
      → find_first (is_reply_to k) s.idempotency_store ≡ none
      → IsKept k (
          unless_failing posting body.employee_id (post_hours undefined_text body body.hours now) s)
  unfolding unless_failing
  checked-IsKept s (goes_on rs) q new =
      rw (q, unless_failing) (post_hours-IsKept body.hours (record s { failure_rules = rs }) new)
  checked-IsKept s (should_fail m rs) q new =
      rw (q, unless_failing, IsKept) (λ h. absurd (never_good m h))

  handle_post_time_off-IsKept :
      (s : Server) → IsKept k (handle_post_time_off undefined_text body now s)
  unfolding handle_post_time_off unless_replied
  handle_post_time_off-IsKept s =
      elim (Option-cases (find_first (is_reply_to k) s.idempotency_store)) [
        | inl new ↦
            rw (given, new, unless_replied)
              (checked-IsKept s (check_rules posting body.employee_id s.failure_rules) refl new)
        | inr (x, found) ↦ rw (given, found, unless_replied, IsKept) (λ _. (x, found, refl))
      ]

  -- When a post under a key has been answered with status 200, any post under that key gets the same
  -- answer, whatever its body and the failure rules say, and changes nothing.
  pub handle_post_replayed :
      (s : Server) (r : Response) (after : Server)
      → handle_post_time_off undefined_text body now s ≡ (r, after)
      → r.status ≡ 200
      → (again : Body) (later : Moment) → or_null again.idempotency_key ≡ some k
      → handle_post_time_off undefined_text again later after ≡ (r, after)
  unfolding handle_post_time_off unless_replied
  handle_post_replayed s r after e good again later same =
      let (x, found, q) = (rw e at (handle_post_time_off-IsKept s)) good in
      rw (same, found, unless_replied, q) refl
