-- ===== src/Outbox/Repository.antt =====
-- src/integration/outbox/outbox.repository.ts
use readyon.Base.{
  ℕ, Bool, true, not, ◌&&◌, ◌||◌, Option, none, some, List, [], ◌∷◌, ◌++◌, leb, ◌==◌, ⊤,
  if◌then◌else◌, take, find_first, count_where, any, update_where, select_where, order_by,
}
use readyon.Types.{
  Text, IntegrationOutboxRow, IdempotencyKey, same_key, Payload, ErrorText, cancelled_by_employee,
  OutboxAction, pending, processing, completed, failed, is_pending, is_open, HcmErrorCategory,
  transient, permanent,
}
use readyon.Errors.{sqlite_error, type_error, integration_outbox}
use readyon.Store.{
  Db, M, pure, gets, ask, or_raise, raise_if, modify, generate_id, ◌>>=◌, ◌>>◌, now_iso,
  calculate_exponential_backoff,
}

unfoldable pub find_by_id : Text → Db → Option IntegrationOutboxRow
find_by_id id db = find_first (λ e. e.id == id) db.entries

-- `maxRetries || 5`
abbrev pub default_max_retries : ℕ
default_max_retries = 5

abbrev pub or_five : Option ℕ → ℕ
or_five none = default_max_retries
or_five (some n) = if n == 0 then default_max_retries else n

-- The keys and the foreign key of integration_outbox.
unfoldable pub violates : IntegrationOutboxRow → Db → Bool
violates e db =
    any (λ (f : IntegrationOutboxRow). f.id == e.id || same_key f.idempotency_key e.idempotency_key)
      db.entries
    || not (any (λ r. r.id == e.request_id) db.requests)

-- The row that `create` inserts.
abbrev pub new_entry :
    Text → OutboxAction → IdempotencyKey → Payload → Option ℕ → Text → Text → IntegrationOutboxRow
new_entry request_id action idempotency_key payload max_retries id now = record {
  id = id;
  request_id = request_id;
  action = action;
  idempotency_key = idempotency_key;
  payload = payload;
  status = pending;
  retry_count = 0;
  max_retries = or_five max_retries;
  next_retry_at = none;
  last_error = none;
  error_category = none;
  completed_at = none;
  created_at = now;
  updated_at = now;
}

unfoldable pub create :
    Text → OutboxAction → IdempotencyKey → Payload → Option ℕ → M IntegrationOutboxRow
unfolding generate_id
create request_id action idempotency_key payload max_retries = do
  id ← generate_id
  now ← ask now_iso
  let e = new_entry request_id action idempotency_key payload max_retries id now
  raise_if (← gets (violates e)) (sqlite_error integration_outbox)
  modify (λ db. record db { entries = db.entries ++ e ∷ [] })
  or_raise (← gets (find_by_id id)) type_error

-- `next_retry_at IS NULL OR next_retry_at <= now`
abbrev pub is_due : Text → Option Text → Bool
is_due now none = true
is_due now (some t) = leb t now

abbrev pub is_claimable : Text → IntegrationOutboxRow → Bool
is_claimable now e = is_pending e.status && is_due now e.next_retry_at

-- The oldest pending entries that are due.
unfoldable pub select_pending : Text → ℕ → Db → List IntegrationOutboxRow
select_pending now limit db =
    take limit
      (order_by (λ a b. leb a.created_at b.created_at) (select_where (is_claimable now) db.entries))

-- The entries come back as they were read, before their update.
unfoldable pub claim_pending_entries : ℕ → M (List IntegrationOutboxRow)
claim_pending_entries limit = do
  now ← ask now_iso
  claimed ← gets (select_pending now limit)
  modify (λ db. record db {
    entries =
        update_where
          (λ e. any (λ (c : IntegrationOutboxRow). c.id == e.id) claimed && is_pending e.status)
          (λ e. record e { status = processing; updated_at = now }) db.entries;
  })
  pure claimed

abbrev pub update_entry : Text → (IntegrationOutboxRow → IntegrationOutboxRow) → Db → Db
update_entry id f db = record db { entries = update_where (λ e. e.id == id) f db.entries }

abbrev pub complete : Text → IntegrationOutboxRow → IntegrationOutboxRow
complete now e = record e { status = completed; completed_at = some now; updated_at = now }

unfoldable pub mark_completed : Text → M ⊤
mark_completed id w = modify (update_entry id (complete (now_iso w))) w

abbrev pub retry_later : Text → ErrorText → ℕ → Text → IntegrationOutboxRow → IntegrationOutboxRow
retry_later backoff error retry_count now e = record e {
  status = pending;
  retry_count = retry_count;
  next_retry_at = some backoff;
  last_error = some error;
  error_category = some transient;
  updated_at = now;
}

unfoldable pub mark_for_retry : Text → ErrorText → ℕ → M ⊤
mark_for_retry id error retry_count w =
    modify
      (update_entry id
        (retry_later (calculate_exponential_backoff retry_count w) error retry_count (now_iso w)))
      w

abbrev pub fail : ErrorText → HcmErrorCategory → Text → IntegrationOutboxRow → IntegrationOutboxRow
fail error category now e = record e {
  status = failed;
  last_error = some error;
  error_category = some category;
  updated_at = now;
}

unfoldable pub mark_failed : Text → ErrorText → HcmErrorCategory → M ⊤
mark_failed id error category w = modify (update_entry id (fail error category (now_iso w))) w

abbrev pub is_open_of : Text → IntegrationOutboxRow → Bool
is_open_of request_id e = e.request_id == request_id && is_open e.status

unfoldable pub cancel_by_request_id : Text → M ⊤
cancel_by_request_id request_id w =
    modify
      (λ db. record db {
        entries =
            update_where (is_open_of request_id) (fail cancelled_by_employee permanent (now_iso w))
              db.entries;
      })
      w

unfoldable pub get_outbox_depth : Db → ℕ
get_outbox_depth db = count_where (λ e. is_open e.status) db.entries
