-- ===== src/Hcm/HttpAdapter.antt =====
-- src/integration/hcm/http-hcm-adapter.ts: the port over HTTP.
pub mod Errors
use readyon.Base.{
  ℕ, ℤ, Bool, true, false, not, ◌||◌, ◌==◌, leb, Option, none, some, if◌then◌else◌, ◌≡◌, refl, ◌≤◌,
  ◌<◌, ◌⊎◌, inl, inr, arith,
}
use readyon.Types.{Text, or_default, is_truthy, IdempotencyKey, transient, permanent}
use readyon.Errors.{AppError, hcm_error}
use readyon.Store.{World, M, Outcome, ok, err, pure, raise, catch, ◌>>=◌}
use readyon.Hcm.Port.{
  HcmAdapterPort, HcmPostTimeOffRequest, HcmPostTimeOffResponse, HcmCancelTimeOffRequest,
  HcmCancelTimeOffResponse, HcmGetBalanceResponse, HcmBatchBalancesResponse,
}

-- What is sent, without the URL's and the JSON's syntax.
pub record Call : Type 0 where
  pub correlation_id : Text
  pub idempotency_key : Option IdempotencyKey

pub data HttpRequest : Type 0 where
  -- GET /balance: employee_id, leave_type
  get_balance_call : Call → Text → Text → HttpRequest
  -- POST /time-off: employee_id, leave_type, hours, start_date, end_date
  post_call : Call → Text → Text → ℤ → Text → Text → HttpRequest
  -- POST /time-off/cancel: hcm_reference_id, employee_id
  cancel_call : Call → Option Text → Text → HttpRequest
  -- GET /batch-balances: since
  batch_call : Call → Option Text → HttpRequest

-- `res.ok` and `res.status`; `res.json()` either gives the answer of a good response, or the fields
-- `message` and `error` of a bad one, or raises.
pub record HttpResponse (A : Type 0) : Type 0 where
  pub is_ok : Bool
  pub status : ℕ
  pub answer : M A
  pub problem : Option (Option Text × Option Text)

-- The texts that the adapter has: 'Unknown HCM Error', 'Network error' and its three codes.
pub record HttpTexts : Type 0 where
  pub unknown_error : Text
  pub network_error : Text
  pub transient_code : Text
  pub permanent_code : Text
  pub network_code : Text

-- `data.message || data.error || msg`
abbrev pub problem_text : Option (Option Text × Option Text) → Text → Text
problem_text none msg = msg
problem_text (some (message, error)) msg = or_default message (or_default error msg)

module _ (texts : HttpTexts) (message : AppError → Text) where
  unfoldable pub handle_response : {A : Type 0} → HttpResponse A → M A
  handle_response res =
      if not res.is_ok
      then if leb 500 res.status || res.status == 429
        then raise (
            hcm_error transient texts.transient_code (problem_text res.problem texts.unknown_error))
        else raise (
            hcm_error permanent texts.permanent_code (problem_text res.problem texts.unknown_error))
      else res.answer

  -- The `catch` of each method: what is no HCM error becomes a transient one.
  unfoldable pub handle_error : {A : Type 0} → AppError → M A
  handle_error (hcm_error category code text) = raise (hcm_error category code text)
  handle_error e =
      raise
        (hcm_error transient texts.network_code (or_default (some (message e)) texts.network_error))

  unfoldable pub send_call : {A : Type 0} → M (HttpResponse A) → M A
  send_call fetched = catch (do res ← fetched; handle_response res) handle_error

  -- `fetch` for each kind of answer.
  module _ (fetch_balance : HttpRequest → M (HttpResponse HcmGetBalanceResponse))
      (fetch_post : HttpRequest → M (HttpResponse HcmPostTimeOffResponse))
      (fetch_cancel : HttpRequest → M (HttpResponse HcmCancelTimeOffResponse))
      (fetch_batch : HttpRequest → M (HttpResponse HcmBatchBalancesResponse)) where
    unfoldable pub http_adapter : HcmAdapterPort
    http_adapter = record {
      get_balance = λ employee_id leave_type correlation_id. send_call (
          fetch_balance (
            get_balance_call (record { correlation_id = correlation_id; idempotency_key = none })
              employee_id leave_type));
      post_time_off = λ r. send_call (
          fetch_post (
            post_call
              (record {
                correlation_id = r.correlation_id;
                idempotency_key = some r.idempotency_key;
              })
              r.employee_id r.leave_type r.hours r.start_date r.end_date));
      cancel_time_off = λ r. send_call (
          fetch_cancel (
            cancel_call
              (record {
                correlation_id = r.correlation_id;
                idempotency_key = some r.idempotency_key;
              })
              r.hcm_reference_id r.employee_id));
      get_batch_balances = λ since correlation_id. send_call (
          fetch_batch (
            batch_call (record { correlation_id = correlation_id; idempotency_key = none })
              (if is_truthy since then some since else none)));
    }
