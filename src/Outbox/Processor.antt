-- ===== src/Outbox/Processor.antt =====
-- src/integration/outbox/outbox.processor.ts
use readyon.Base.{
  ℕ, ◌+◌, Bool, true, false, Option, none, some, List, [], ◌∷◌, ℤ, pos, ◌-ℤ◌, leb, ⊤, if◌then◌else◌,
}
use readyon.Types.{
  Text, or_default, hq, TimeOffRequestRow, BalanceProjectionRow, IntegrationOutboxRow,
  RequestStatus, approved_pending_hcm, approved, cancelled, failed_hcm, same_status, OutboxAction,
  Payload, ErrorText, message_of, invalid_request_state, changed_during_call, retries_exhausted,
  transient, permanent, request, system, id_of, outbox_processor, hcm_deduction_confirmed,
  hcm_cancellation_confirmed, hcm_deduction_failed, status_ref, status_only, hcm_meta, failed_meta,
  post_payload, cancel_payload, post_time_off, cancel_time_off,
}
use readyon.Errors.{AppError, hcm_error, type_error}
use readyon.Store.{M, pure, raise, gets, generate_id, run_in_transaction, catch, ◌>>=◌, ◌>>◌}
use readyon.Balance.Repository.{find_by_employee_and_type, apply_deduction}
use readyon.Hold.Repository as Holds
use readyon.Request.Repository.{find_by_id, update_status, no_extra}
use readyon.Outbox.Repository.{claim_pending_entries, mark_completed, mark_for_retry, mark_failed}
use readyon.Hcm.Port.{HcmAdapterPort, HcmPostTimeOffResponse, HcmCancelTimeOffResponse}
use readyon.Audit

-- `request && request.status === status`
abbrev pub in_status : RequestStatus → Option TimeOffRequestRow → Option TimeOffRequestRow
in_status status none = none
in_status status (some r) = if same_status r.status status then some r else none

-- `if (projection) applyDeduction(…, projection.version)`
unfoldable pub deduct_if_known : Text → Text → Text → ℤ → Option BalanceProjectionRow → M ⊤
deduct_if_known employee_id leave_type loc hours none = pure tt
deduct_if_known employee_id leave_type loc hours (some p) = do
  apply_deduction employee_id leave_type loc hours p.version
  pure tt

-- The writes for a deduction that the HCM system has accepted.
unfoldable pub confirm_post :
    IntegrationOutboxRow → Text → Text → ℤ → HcmPostTimeOffResponse → TimeOffRequestRow → M ⊤
unfolding generate_id
confirm_post entry employee_id leave_type hours response current = do
  update_status entry.request_id approved current.version
      (record { rejection_reason = none; hcm_reference_id = response.hcm_reference_id })
  Holds.convert entry.request_id
  let loc = or_default current.location hq
  projection ← gets (find_by_employee_and_type employee_id leave_type loc)
  deduct_if_known employee_id leave_type loc hours projection
  mark_completed entry.id
  Audit.log (record {
    entity_type = request;
    entity_id = id_of entry.request_id;
    action = hcm_deduction_confirmed;
    actor_type = system;
    actor_id = outbox_processor;
    before_state = none;
    after_state = some (status_ref approved response.hcm_reference_id);
    metadata = some (hcm_meta entry.id response.hcm_version);
    correlation_id = none;
  })

-- The transaction after a successful `postTimeOff`, which reads the request again.
unfoldable pub settle_post : IntegrationOutboxRow → Text → Text → ℤ → HcmPostTimeOffResponse → M ⊤
settle_post entry employee_id leave_type hours response = do
  current ← gets (λ db. in_status approved_pending_hcm (find_by_id entry.request_id db))
  elim current [
    | none ↦ mark_failed entry.id changed_during_call permanent
    | some r ↦ confirm_post entry employee_id leave_type hours response r
  ]

-- The transaction after a successful `cancelTimeOff`, with the request that was read before it.
unfoldable pub settle_cancel :
    IntegrationOutboxRow
    → Text
    → Text
    → Option Text
    → HcmCancelTimeOffResponse
    → TimeOffRequestRow
    → M ⊤
settle_cancel entry employee_id leave_type reference response r = do
  let loc = or_default r.location hq
  projection ← gets (find_by_employee_and_type employee_id leave_type loc)
  deduct_if_known employee_id leave_type loc (pos 0 -ℤ r.hours_requested) projection
  mark_completed entry.id
  Audit.log (record {
    entity_type = request;
    entity_id = id_of entry.request_id;
    action = hcm_cancellation_confirmed;
    actor_type = system;
    actor_id = outbox_processor;
    before_state = none;
    after_state = some (status_ref cancelled reference);
    metadata = some (hcm_meta entry.id response.hcm_version);
    correlation_id = none;
  })

-- The writes of `handlePermanentFailure` to a request that still waits.
unfoldable pub give_up : Text → Text → ErrorText → Option TimeOffRequestRow → M ⊤
give_up outbox_id request_id error none = pure tt
give_up outbox_id request_id error (some r) = do
  update_status request_id failed_hcm r.version no_extra
  Holds.release request_id
  Audit.log (record {
    entity_type = request;
    entity_id = id_of request_id;
    action = hcm_deduction_failed;
    actor_type = system;
    actor_id = outbox_processor;
    before_state = none;
    after_state = some (status_only failed_hcm);
    metadata = some (failed_meta outbox_id error);
    correlation_id = none;
  })

unfoldable pub handle_permanent_failure_tx : Text → Text → ErrorText → M ⊤
handle_permanent_failure_tx outbox_id request_id error = do
  waiting ← gets (λ db. in_status approved_pending_hcm (find_by_id request_id db))
  give_up outbox_id request_id error waiting
  mark_failed outbox_id error permanent

unfoldable pub handle_permanent_failure : Text → Text → ErrorText → M ⊤
handle_permanent_failure outbox_id request_id error =
    run_in_transaction (handle_permanent_failure_tx outbox_id request_id error)

-- How the `catch` answers: a failure that may pass is tried again while retries are left, and then
-- handled as permanent with the text `last`.
unfoldable pub retry_or_give_up : IntegrationOutboxRow → ErrorText → ErrorText → M ⊤
retry_or_give_up entry error last =
    if leb entry.max_retries (entry.retry_count + 1)
    then handle_permanent_failure entry.id entry.request_id last
    else mark_for_retry entry.id error (entry.retry_count + 1)

-- `port` is the adapter, and `message` the text of an exception other than the adapter's.
module _ (port : HcmAdapterPort) (message : AppError → Text) where
  unfoldable pub on_error : IntegrationOutboxRow → AppError → M ⊤
  unfolding retry_or_give_up
  on_error entry (hcm_error transient code text) =
      retry_or_give_up entry (message_of text) (retries_exhausted (message_of text))
  on_error entry (hcm_error permanent code text) =
      handle_permanent_failure entry.id entry.request_id (message_of text)
  on_error entry e = retry_or_give_up entry (message_of (message e)) (message_of (message e))

  -- The branch of `sweep` for an action and its payload, for the request that was read. The result
  -- says if the entry counts as processed.
  unfoldable pub send :
      IntegrationOutboxRow → OutboxAction → Payload → Option TimeOffRequestRow → M Bool
  unfolding generate_id
  send entry post_time_off (post_payload employee_id leave_type start_date end_date hours) found =
      elim (in_status approved_pending_hcm found) [
        | none ↦ do mark_failed entry.id invalid_request_state permanent; pure false
        | some r ↦ do
          correlation_id ← generate_id
          response ← port.post_time_off (record {
            idempotency_key = entry.idempotency_key;
            employee_id = employee_id;
            leave_type = leave_type;
            start_date = start_date;
            end_date = end_date;
            hours = hours;
            correlation_id = correlation_id;
          })
          run_in_transaction (settle_post entry employee_id leave_type hours response)
          pure true
      ]
  send entry cancel_time_off (cancel_payload employee_id leave_type reference) found =
      elim (in_status cancelled found) [
        | none ↦ do mark_failed entry.id invalid_request_state permanent; pure false
        | some r ↦ do
          correlation_id ← generate_id
          response ← port.cancel_time_off (record {
            idempotency_key = entry.idempotency_key;
            hcm_reference_id = reference;
            employee_id = employee_id;
            leave_type = leave_type;
            correlation_id = correlation_id;
          })
          run_in_transaction (settle_cancel entry employee_id leave_type reference response r)
          pure true
      ]
  -- No code writes an entry whose payload is not that of its action.
  send entry post_time_off (cancel_payload _ _ _) found = raise type_error
  send entry cancel_time_off (post_payload _ _ _ _ _) found = raise type_error

  -- One round of the loop of `sweep`.
  unfoldable pub process_entry : IntegrationOutboxRow → M Bool
  process_entry entry =
      catch
        (do found ← gets (find_by_id entry.request_id); send entry entry.action entry.payload found)
        (λ e. do on_error entry e; pure false)

  unfoldable pub process_entries : List IntegrationOutboxRow → M ℕ
  process_entries [] = pure 0
  process_entries (entry ∷ rest) = do
    counts ← process_entry entry
    processed ← process_entries rest
    pure (if counts then 1 + processed else processed)

  -- Claims at most ten entries, and returns how many of them were processed.
  unfoldable pub sweep : M ℕ
  unfolding process_entries
  sweep = do entries ← run_in_transaction (claim_pending_entries 10); process_entries entries
