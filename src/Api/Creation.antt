-- ===== src/Api/Creation.antt =====
-- `EmployeeRequestController.createRequest` over repeated calls.
use readyon.Base.{ℕ, ◌≡◌, ◌<◌, true, false, none, some, any, ◌==◌}
use readyon.Types.{Text, is_truthy, IdempotencyRow}
use readyon.Store.{World, Returns, ok}
use readyon.Store.Returns.{conclude}
use readyon.Request.Service.{CreateTimeOffRequestDto, CreatedRequest, create_request}
use readyon.Request.Creation.{Granted, create_request-IsAtomic}
use readyon.Idempotency.{check, day_ms}
use readyon.Idempotency.Replay.{idempotent_replay, later, IsoIsMonotone, IsKeyless}
use readyon.Api.{Headers, post_request}

module _ (hash : Text) (headers : Headers) (json : CreatedRequest → Text)
    (dto : CreateTimeOffRequestDto) where
  keyless :
      (key : Text) (w : World)
      → any (λ (k : IdempotencyRow). k.key == key) w.db.keys ≡ false
      → IsKeyless json hash 201
          (create_request headers.employee_id dto headers.correlation_id)
          key
          w
  keyless key w absent =
      conclude w.db (Granted headers.employee_id dto headers.correlation_id w) _
        (create_request headers.employee_id dto headers.correlation_id w)
        (create_request-IsAtomic headers.employee_id dto headers.correlation_id w)
        (λ r w' made. (rw ((made.5).4) absent, (made.5).5))

  -- A request that was created under a key that no row had before is not created again: within a
  -- day, the same call gets the same response and changes nothing.
  pub post_request_once :
      (key : Text) (ms : ℕ) (w : World)
      → headers.idempotency_key ≡ some key
      → is_truthy key ≡ true
      → any (λ (k : IdempotencyRow). k.key == key) w.db.keys ≡ false
      → check key w ≡ none
      → IsoIsMonotone w
      → ms < day_ms
      → Returns
          (λ response w'.
            post_request hash headers json dto (later ms w') ≡ ok response (later ms w'))
          (post_request hash headers json dto w)
  unfolding post_request
  post_request_once key ms w header given absent new mono soon = rw header (
      idempotent_replay json hash 201
        (create_request headers.employee_id dto headers.correlation_id) key ms w given new
        (keyless key w absent) mono soon)
