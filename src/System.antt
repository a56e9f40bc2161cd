-- ===== src/System.antt =====
-- src/request, src/integration: the writes of the whole service, as steps in any order. Each step is
-- one transaction or statement that the code runs without an `await` in between.
pub mod Rules
pub mod Effects
pub mod Holds
pub mod Coherence
pub mod Rows
pub mod Soundness
pub mod Reserved
pub mod Reservations
use readyon.Base.{ℕ, ℤ, Option, some, ◌≡◌, ⊤}
use readyon.Types.{
  Text, TimeOffRequestRow, BalanceProjectionRow, IntegrationOutboxRow, ErrorText, HcmErrorCategory,
}
use readyon.Database.{reset_tables}
use readyon.Errors.{AppError}
use readyon.Store.{World, M, Outcome, ok, err, run_in_transaction}
use readyon.Request.Service.{
  CreateTimeOffRequestDto, create_request, cancel_request, approve_request, reject_request,
}
use readyon.Outbox.Repository.{claim_pending_entries, mark_failed}
use readyon.Outbox.Processor.{settle_post, settle_cancel, on_error}
use readyon.Hcm.Port.{
  HcmAdapterPort, HcmPostTimeOffResponse, HcmCancelTimeOffResponse, HcmGetBalanceResponse,
}
use readyon.Balance.Repository.{find_by_employee_and_type}
use readyon.Batch.Sync.{BatchSyncItem, process_item}
use readyon.Integration.{SingleBalanceUpdateDto, update_balance_tx}
use readyon.Reconciliation.{reconcile_local}

-- The world when an operation has ended, by a result or an exception.
abbrev pub final : {A : Type 0} → Outcome A → World
final (ok _ w) = w
final (err _ w) = w

-- The parameters of the parts: `trim`, the adapter, the texts of exceptions, the mock's memory.
module _ (trim : Text → Text) (port : HcmAdapterPort) (message : AppError → Text)
    (sync_mock : M ⊤) where
  pub data Step (w : World) : World → Type 0 where
    creates :
        (e : Text) (dto : CreateTimeOffRequestDto) (c : Option Text)
        → Step w (final (create_request e dto c w))
    cancels :
        (id e : Text) (v : ℕ) (reason c : Option Text)
        → Step w (final (cancel_request id e v reason c w))
    approves : (id m : Text) (v : ℕ) (c : Option Text) → Step w (final (approve_request id m v c w))
    rejects :
        (id m : Text) (v : ℕ) (reason : Text) (c : Option Text)
        → Step w (final (reject_request trim id m v reason c w))
    claims : (limit : ℕ) → Step w (final (run_in_transaction (claim_pending_entries limit) w))
    confirms :
        (entry : IntegrationOutboxRow) (e t : Text) (hours : ℤ) (answer : HcmPostTimeOffResponse)
        → Step w (final (run_in_transaction (settle_post entry e t hours answer) w))
    refunds :
        (entry : IntegrationOutboxRow) (e t : Text) (reference : Option Text)
        (answer : HcmCancelTimeOffResponse) (r : TimeOffRequestRow)
        → Step w (final (run_in_transaction (settle_cancel entry e t reference answer r) w))
    fails :
        (entry : IntegrationOutboxRow) (e : AppError)
        → Step w (final (on_error port message entry e w))
    drops :
        (id : Text) (text : ErrorText) (category : HcmErrorCategory)
        → Step w (final (mark_failed id text category w))
    syncs : (item : BatchSyncItem) → Step w (final (process_item item w))
    updates :
        (dto : SingleBalanceUpdateDto) (c : Option Text)
        → Step w (final (run_in_transaction (update_balance_tx sync_mock dto c) w))
    reconciles :
        (e t l : Text) (b : HcmGetBalanceResponse) (threshold : ℤ) (p : BalanceProjectionRow)
        → find_by_employee_and_type e t l w.db ≡ some p
        → Step w (final (reconcile_local e t l b threshold p w))
    -- `resetDatabase`, behind the mock-failures handler.
    resets : Step w (record w { db = reset_tables w.db })
    -- The clock, the identifiers drawn, and writes to other tables than these three.
    elsewhere :
        (w' : World)
        → w'.db.requests ≡ w.db.requests
        → w'.db.holds ≡ w.db.holds
        → w'.db.projections ≡ w.db.projections
        → Step w w'

  -- The worlds that can follow a world.
  pub data Steps (w : World) : World → Type 0 where
    rest : Steps w w
    more : {u v : World} → Steps w u → Step u v → Steps w v
