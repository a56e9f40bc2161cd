-- ===== src/MockServer/Handlers.antt =====
-- The route handlers of src/mock-hcm-server/server.ts.
use readyon.Base.{
  ℤ, ltb, Bool, holds_value, Option, none, some, List, [], ◌∷◌, ◌++◌, if◌then◌else◌, find_first,
  select_where, update_where, set_entry, remove_first,
}
use readyon.Types.{Text, empty_text, or_default, or_null}
use readyon.Hcm.MockAdapter.Faults.{Operation, getting_balance, posting, canceling, getting_batch}
use readyon.MockServer.Rules.{
  goes_on, should_fail, check_rules, get_failure_response, insufficient_balance_error,
  not_found_error, bad_request, missing_parameter,
}
use readyon.MockServer.State.{
  plus, minus, less, number_of, Balance, Deduction, error_reply, balance_reply, accepted_reply,
  cancelled_reply, batch_reply, Response, StoredReply, Server, Body, Moment, HoursField,
  missing_hours, no_integer, integer, is_key, is_reply_to, respond,
}

-- `const failure = checkFailure(…)`, and what follows when it says not to fail.
unfoldable pub unless_failing :
    Operation → Option Text → (Server → Response × Server) → Server → Response × Server
unless_failing o e k s = elim (check_rules o e s.failure_rules) [
  | goes_on rs ↦ k (record s { failure_rules = rs })
  | should_fail mode rs ↦ (
    respond (get_failure_response mode).0 (error_reply (get_failure_response mode).1),
    record s { failure_rules = rs },
  )
]

unfoldable pub find_balance : Text → Text → Server → Response × Server
find_balance e t s = elim (find_first (is_key e t) s.balances) [
  | none ↦ (respond 404 (error_reply not_found_error), s)
  | some b ↦ (respond 200 (balance_reply e t b.total_balance b.used_balance b.hcm_version), s)
]

-- The two query parameters.
unfoldable pub handle_get_balance : Option Text → Option Text → Server → Response × Server
unfolding unless_failing find_balance
handle_get_balance employee_id leave_type s = elim (or_null employee_id) [
  | none ↦ (respond 400 (error_reply missing_parameter), s)
  | some e ↦ elim (or_null leave_type) [
    | none ↦ (respond 400 (error_reply missing_parameter), s)
    | some t ↦ unless_failing getting_balance (some e) (find_balance e t) s
  ]
]

-- `if (idempotencyKey) idempotencyStore.set(…)`
abbrev pub keep_reply : Option Text → Response → List StoredReply → List StoredReply
keep_reply none r store = store
keep_reply (some k) r store = set_entry (is_reply_to k) (record { key = k; response = r }) store

-- The stored reply to a key that is given.
abbrev pub stored_reply : Option Text → List StoredReply → Option StoredReply
stored_reply none store = none
stored_reply (some k) store = find_first (is_reply_to k) store

-- A request whose key has a reply gets it again.
unfoldable pub unless_replied :
    Option Text → (Server → Response × Server) → Server → Response × Server
unless_replied key k s = elim (stored_reply key s.idempotency_store) [
  | none ↦ k s
  | some r ↦ (r.response, s)
]

abbrev pub add_hours : Option ℤ → Text → Balance → Balance
add_hours hours version b = record b {
  used_balance = plus b.used_balance (number_of hours);
  hcm_version = version;
}

abbrev pub take_back : Option ℤ → Text → Balance → Balance
take_back hours version b = record b {
  used_balance = minus b.used_balance (number_of hours);
  hcm_version = version;
}

-- `undefined_text` is the text 'undefined', which a missing part of a key becomes.
module _ (undefined_text : Text) where
  abbrev pub shown : Option Text → Text
  shown none = undefined_text
  shown (some t) = t

  abbrev pub is_balance_of : Option Text → Option Text → Balance → Bool
  is_balance_of e t = is_key (shown e) (shown t)

  abbrev new_charge : Body → Option ℤ → Moment → Deduction
  new_charge body hours now = record {
    reference_id = now.fresh_id;
    idempotency_key = or_default (or_null body.idempotency_key) empty_text;
    employee_id = body.employee_id;
    leave_type = body.leave_type;
    hours = hours;
    start_date = body.start_date;
    end_date = body.end_date;
    created_at = now.later_iso;
  }

  -- The rest of a post, on a balance that is there.
  unfoldable pub charge : Body → Option ℤ → Moment → Balance → Server → Response × Server
  charge body hours now b s =
      if less (minus b.total_balance b.used_balance) (number_of hours)
      then (respond 422 (error_reply insufficient_balance_error), s)
      else (
        respond 200 (accepted_reply now.fresh_id now.iso),
        record s {
          balances =
              update_where (is_balance_of body.employee_id body.leave_type)
                (add_hours hours now.iso) s.balances;
          idempotency_store =
              keep_reply (or_null body.idempotency_key)
                (respond 200 (accepted_reply now.fresh_id now.iso)) s.idempotency_store;
          deductions = s.deductions ++ new_charge body hours now ∷ [];
        },
      )

  unfoldable pub deduct_from : Body → Option ℤ → Moment → Server → Response × Server
  unfolding charge
  deduct_from body hours now s =
      elim (find_first (is_balance_of body.employee_id body.leave_type) s.balances) [
        | none ↦ (respond 404 (error_reply not_found_error), s)
        | some b ↦ charge body hours now b s
      ]

  -- After the failure rules, by the hours that are sent.
  unfoldable pub post_hours : Body → HoursField → Moment → Server → Response × Server
  unfolding deduct_from
  post_hours body missing_hours now s = deduct_from body none now s
  post_hours body no_integer now s = (respond 400 (error_reply bad_request), s)
  post_hours body (integer n) now s = deduct_from body (some n) now s

  unfoldable pub handle_post_time_off : Body → Moment → Server → Response × Server
  unfolding unless_replied unless_failing post_hours
  handle_post_time_off body now =
      unless_replied (or_null body.idempotency_key)
        (unless_failing posting body.employee_id (post_hours body body.hours now))

  abbrev pub has_reference : Option Text → Deduction → Bool
  has_reference reference d = holds_value reference d.reference_id

  -- `balance?.hcm_version || new Date().toISOString()`
  abbrev version_after : Option Balance → Moment → Text
  version_after none now = now.later_iso
  version_after (some b) now = or_default (some now.iso) now.later_iso

  unfoldable pub take_back_deduction : Body → Moment → Server → Response × Server
  take_back_deduction body now s =
      elim (find_first (has_reference body.hcm_reference_id) s.deductions) [
        | none ↦ (respond 404 (error_reply not_found_error), s)
        | some d ↦
            let found = find_first (is_balance_of d.employee_id d.leave_type) s.balances in
            let response = respond 200 (cancelled_reply (version_after found now)) in
            (
              response,
              record s {
                balances =
                    update_where (is_balance_of d.employee_id d.leave_type)
                      (take_back d.hours now.iso) s.balances;
                idempotency_store =
                    keep_reply (or_null body.idempotency_key) response s.idempotency_store;
                deductions = remove_first (has_reference body.hcm_reference_id) s.deductions;
              },
            )
      ]

  unfoldable pub handle_cancel_time_off : Body → Moment → Server → Response × Server
  unfolding unless_replied unless_failing take_back_deduction
  handle_cancel_time_off body now =
      unless_replied (or_null body.idempotency_key)
        (unless_failing canceling body.employee_id (take_back_deduction body now))

-- `epoch` is the text '1970-01-01T00:00:00Z', and `system` the text 'system'.
unfoldable pub handle_batch_balances :
    Text → Text → Option Text → Moment → Server → Response × Server
unfolding unless_failing
handle_batch_balances epoch system since now = unless_failing getting_batch (some system) (λ s. (
  respond 200 (
      batch_reply now.iso
        (select_where (λ b. ltb (or_default since epoch) b.hcm_version) s.balances)),
  s,
))
