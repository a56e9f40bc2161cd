-- ===== src/MockServer/Hours.antt =====
-- The hours that `handlePostTimeOff` of src/mock-hcm-server/server.ts deducts.
use readyon.Base.{
  ℤ, false, none, some, List, find_first, update_where, find_first-update_where, find_first_holds,
  ◌≡◌, refl,
}
use readyon.Types.{Text, or_null}
use readyon.Hcm.MockAdapter.Faults.{posting}
use readyon.MockServer.Rules.{FailureRule, goes_on, check_rules}
use readyon.MockServer.State.{
  Amount, whole, not_a_number, plus, minus, less, Balance, accepted_reply, Server, Body, Moment,
  missing_hours, integer, respond,
}
use readyon.MockServer.Handlers.{
  is_balance_of, stored_reply, add_hours, charge, deduct_from, post_hours, unless_replied,
  unless_failing, handle_post_time_off,
}
use readyon.MockServer.Unknown.{IsUnknown, Sent, handle_all, handle_all-IsUnknown}

plus_unknown : (a : Amount) → plus a not_a_number ≡ not_a_number
plus_unknown (whole a) = refl
plus_unknown not_a_number = refl

never_less : (a : Amount) → less a not_a_number ≡ false
never_less (whole a) = refl
never_less not_a_number = refl

unknown_left : (a : Amount) → minus a not_a_number ≡ not_a_number
unknown_left (whole a) = refl
unknown_left not_a_number = refl

module _ (undefined_text : Text) where
  -- Nothing answers the request before its hours are looked at.
  abbrev pub IsFirst : Body → Server → List FailureRule → Type 0
  IsFirst body s left =
      (stored_reply (or_null body.idempotency_key) s.idempotency_store ≡ none)
      × (check_rules posting body.employee_id s.failure_rules ≡ goes_on left)

  passed_on :
      (body : Body) (now : Moment) (s : Server) (left : List FailureRule)
      → IsFirst body s left
      → handle_post_time_off undefined_text body now s
        ≡ post_hours undefined_text body body.hours now (record s { failure_rules = left })
  unfolding handle_post_time_off unless_replied unless_failing
  passed_on body now s left (new, passing) = rw (new, unless_replied, passing, unless_failing) refl

  deducted :
      (body : Body) (now : Moment) (s : Server) (b : Balance)
      → find_first (is_balance_of undefined_text body.employee_id body.leave_type) s.balances
        ≡ some b
      → find_first (is_balance_of undefined_text body.employee_id body.leave_type) (
          update_where
            (is_balance_of undefined_text body.employee_id body.leave_type)
            (add_hours none now.iso)
            s.balances)
        ≡ some (add_hours none now.iso b)
  deducted body now s b found =
      let p = is_balance_of undefined_text body.employee_id body.leave_type in
      rw
        (
          find_first-update_where p p (add_hours none now.iso) (λ y. refl) s.balances b found,
          find_first_holds p s.balances b found,
        )
        refl

  missing_hours-IsUnknown :
      (body : Body) (now : Moment) (s : Server) (left : List FailureRule) (b : Balance)
      → IsFirst body s left
      → body.hours ≡ missing_hours
      → find_first (is_balance_of undefined_text body.employee_id body.leave_type) s.balances
        ≡ some b
      → IsUnknown undefined_text body (handle_post_time_off undefined_text body now s).1
  unfolding post_hours deduct_from charge
  missing_hours-IsUnknown body now s left b first missing found =
      rw
        (
          passed_on body now s left first,
          missing,
          post_hours,
          deduct_from,
          found,
          charge,
          never_less (minus b.total_balance b.used_balance),
        )
        (add_hours none now.iso b, deducted body now s b found, plus_unknown b.used_balance)

  IsUnknown-accepted :
      (body : Body) (now : Moment) (s : Server) (left : List FailureRule) (n : ℤ)
      → IsFirst body s left
      → body.hours ≡ integer n
      → IsUnknown undefined_text body s
      → (handle_post_time_off undefined_text body now s).0
        ≡ respond 200 (accepted_reply now.fresh_id now.iso)
  unfolding post_hours deduct_from charge
  IsUnknown-accepted body now s left n first whole_hours (b, found, unknown) =
      rw
        (
          passed_on body now s left first,
          whole_hours,
          post_hours,
          deduct_from,
          found,
          charge,
          unknown,
          unknown_left b.total_balance,
        )
        refl

  -- When a post without hours reaches a known balance, then after any posts and cancellations every
  -- post of any whole number of hours to the same balance is accepted, if no stored reply and no
  -- failure rule answers it first.
  pub missing_hours_unlimited :
      (body : Body) (now : Moment) (s : Server) (left : List FailureRule) (b : Balance)
      → IsFirst body s left
      → body.hours ≡ missing_hours
      → find_first (is_balance_of undefined_text body.employee_id body.leave_type) s.balances
        ≡ some b
      → (rs : List Sent) (next : Body) (later : Moment) (remaining : List FailureRule) (n : ℤ)
      → next.employee_id ≡ body.employee_id
      → next.leave_type ≡ body.leave_type
      → next.hours ≡ integer n
      → IsFirst next
          (handle_all undefined_text rs (handle_post_time_off undefined_text body now s).1)
          remaining
      → (handle_post_time_off undefined_text next later
          (handle_all undefined_text rs (handle_post_time_off undefined_text body now s).1)).0
        ≡ respond 200 (accepted_reply later.fresh_id later.iso)
  missing_hours_unlimited body now s left b first missing found rs next later remaining n same_e
        same_t whole_hours second =
      let s' = (handle_post_time_off undefined_text body now s).1 in
      let unknown =
        handle_all-IsUnknown undefined_text body rs s'
          (missing_hours-IsUnknown body now s left b first missing found) in
      IsUnknown-accepted next later (handle_all undefined_text rs s') remaining n second whole_hours
        (rw (same_e, same_t) unknown)
