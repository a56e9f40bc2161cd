-- ===== src/MockServer/Unknown.antt =====
-- The requests of src/mock-hcm-server/server.ts and a balance whose used hours are not a number.
use readyon.Base.{
  ℤ, Bool, Option, none, some, List, [], ◌∷◌, if◌then◌else◌, find_first, update_where,
  find_first-update_where, ◌≡◌, refl, inl, inr, Bool-cases, Option-cases,
}
use readyon.Types.{Text, or_null}
use readyon.Hcm.MockAdapter.Faults.{Operation, posting, canceling}
use readyon.MockServer.Rules.{RuleCheck, goes_on, should_fail, check_rules}
use readyon.MockServer.State.{
  not_a_number, minus, less, number_of, Balance, Server, Body, Moment, Response, HoursField,
  missing_hours, no_integer, integer,
}
use readyon.MockServer.Handlers.{
  is_balance_of, stored_reply, add_hours, take_back, has_reference, charge, deduct_from, post_hours,
  unless_replied, unless_failing, handle_post_time_off, take_back_deduction, handle_cancel_time_off,
}

-- Each request to post or to cancel, with its moment.
pub data Sent : Type 0 where
  posts cancels : Body → Moment → Sent

module _ (undefined_text : Text) where
  -- A balance whose used hours are not a number.
  abbrev pub IsUnknown : Body → Server → Type 0
  IsUnknown body s =
      (b : Balance) × (find_first (is_balance_of undefined_text body.employee_id body.leave_type)
          s.balances
        ≡ some b)
      × (b.used_balance ≡ not_a_number)

  abbrev handle : Sent → Server → Server
  handle (posts body now) s = (handle_post_time_off undefined_text body now s).1
  handle (cancels body now) s = (handle_cancel_time_off undefined_text body now s).1

  abbrev pub handle_all : List Sent → Server → Server
  handle_all [] s = s
  handle_all (r ∷ rs) s = handle_all rs (handle r s)

  -- No change of the used hours makes them a number again.
  changed-IsUnknown :
      (body : Body) (p : Balance → Bool) (g : Balance → Balance) (s : Server)
      → ((b : Balance)
          → is_balance_of undefined_text body.employee_id body.leave_type (g b)
            ≡ is_balance_of undefined_text body.employee_id body.leave_type b)
      → ((b : Balance) → b.used_balance ≡ not_a_number → (g b).used_balance ≡ not_a_number)
      → IsUnknown body s
      → IsUnknown body (record s { balances = update_where p g s.balances })
  changed-IsUnknown body p g s keeps stays (b, found, unknown) =
      let q = is_balance_of undefined_text body.employee_id body.leave_type in
      (
        if p b then g b else b,
        find_first-update_where q p g keeps s.balances b found,
        elim (Bool-cases (p b)) [
          | inl hit ↦ rw hit (stays b unknown)
          | inr other ↦ rw other unknown
        ],
      )

  deduct_from-IsUnknown :
      (body other : Body) (hours : Option ℤ) (now : Moment) (s : Server)
      → IsUnknown body s
      → IsUnknown body (deduct_from undefined_text other hours now s).1
  unfolding deduct_from charge
  deduct_from-IsUnknown body other hours now s h =
      let p = is_balance_of undefined_text other.employee_id other.leave_type in
      elim (Option-cases (find_first p s.balances)) [
        | inl gone ↦ rw (gone, deduct_from) h
        | inr (b, found) ↦
            elim (Bool-cases (less (minus b.total_balance b.used_balance) (number_of hours))) [
              | inl short ↦ rw (found, deduct_from, charge, short) h
              | inr covered ↦
                  rw (found, deduct_from, charge, covered)
                    (changed-IsUnknown body p (add_hours hours now.iso) s (λ b. refl)
                      (λ b unknown. rw unknown refl) h)
            ]
      ]

  post_hours-IsUnknown :
      (body other : Body) (hours : HoursField) (now : Moment) (s : Server)
      → IsUnknown body s
      → IsUnknown body (post_hours undefined_text other hours now s).1
  unfolding post_hours
  post_hours-IsUnknown body other missing_hours now s h =
      deduct_from-IsUnknown body other none now s h
  post_hours-IsUnknown body other no_integer now s h = h
  post_hours-IsUnknown body other (integer n) now s h =
      deduct_from-IsUnknown body other (some n) now s h

  take_back_deduction-IsUnknown :
      (body other : Body) (now : Moment) (s : Server)
      → IsUnknown body s
      → IsUnknown body (take_back_deduction undefined_text other now s).1
  unfolding take_back_deduction
  take_back_deduction-IsUnknown body other now s h =
      elim (Option-cases
        (find_first (has_reference undefined_text other.hcm_reference_id) s.deductions)) [
          | inl gone ↦ rw (gone, take_back_deduction) h
          | inr (d, found) ↦
              rw (found, take_back_deduction)
                (changed-IsUnknown body (is_balance_of undefined_text d.employee_id d.leave_type)
                  (take_back d.hours now.iso) s (λ b. refl) (λ b unknown. rw unknown refl) h)
        ]

  -- A stored reply and a failure rule leave the balances alone.
  guarded-IsUnknown :
      (body : Body) (key : Option Text) (o : Operation) (e : Option Text)
      (k : Server → Response × Server) (s : Server)
      → ((s' : Server) → IsUnknown body s' → IsUnknown body (k s').1)
      → IsUnknown body s
      → IsUnknown body (unless_replied key (unless_failing o e k) s).1
  unfolding unless_replied unless_failing
  guarded-IsUnknown body key o e k s keeps h =
      elim (Option-cases (stored_reply key s.idempotency_store)) [
        | inl new ↦ rw (new, unless_replied) (checked (check_rules o e s.failure_rules) refl)
        | inr (r, stored) ↦ rw (stored, unless_replied) h
      ]
    where
      checked :
          (c : RuleCheck)
          → check_rules o e s.failure_rules ≡ c
          → IsUnknown body (unless_failing o e k s).1
      checked (goes_on rs) q = rw (q, unless_failing) (keeps (record s { failure_rules = rs }) h)
      checked (should_fail mode rs) q = rw (q, unless_failing) h

  handle-IsUnknown :
      (body : Body) (r : Sent) (s : Server) → IsUnknown body s → IsUnknown body (handle r s)
  unfolding handle_post_time_off handle_cancel_time_off
  handle-IsUnknown body (posts other now) s h =
      guarded-IsUnknown body (or_null other.idempotency_key) posting other.employee_id
        (post_hours undefined_text other other.hours now) s
        (λ s'. post_hours-IsUnknown body other other.hours now s') h
  handle-IsUnknown body (cancels other now) s h =
      guarded-IsUnknown body (or_null other.idempotency_key) canceling other.employee_id
        (take_back_deduction undefined_text other now) s
        (λ s'. take_back_deduction-IsUnknown body other now s') h

  pub handle_all-IsUnknown :
      (body : Body) (rs : List Sent) (s : Server)
      → IsUnknown body s
      → IsUnknown body (handle_all rs s)
  handle_all-IsUnknown body [] s h = h
  handle_all-IsUnknown body (r ∷ rs) s h =
      handle_all-IsUnknown body rs (handle r s) (handle-IsUnknown body r s h)
