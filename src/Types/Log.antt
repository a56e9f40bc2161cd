-- ===== src/Types/Log.antt =====
-- Audit log rows: the JSON columns by the objects that they hold.
use readyon.Base.{ℤ, Option, Bool}
use readyon.Types.Texts.{Text}
use readyon.Types.Status.{RequestStatus, EntityType, ActorType}
use readyon.Types.Rows.{BalanceProjectionRow, TimeOffRequestRow, IdempotencyKey, ErrorText}

pub data AuditAction : Type 0 where
  created_action cancelled_action approved_by_manager rejected_by_manager : AuditAction
  hcm_deduction_confirmed hcm_cancellation_confirmed hcm_deduction_failed : AuditAction
  batch_created batch_updated flagged_reconciliation : AuditAction
  reconciliation_auto_repair reconciliation_flagged single_update : AuditAction

-- An identifier, or `${employee_id}/${leave_type}`.
pub data EntityId : Type 0 where
  id_of : Text → EntityId
  pair_of : Text → Text → EntityId
  -- `${employee_id}/${leave_type}/${location}`
  triple_of : Text → Text → Text → EntityId

-- A caller's identifier, or the name of a part of the program.
pub data ActorId : Type 0 where
  person : Text → ActorId
  outbox_processor batch_sync reconciliation hcm_single_update : ActorId

pub data Snapshot : Type 0 where
  request_row : TimeOffRequestRow → Snapshot
  balance_row : BalanceProjectionRow → Snapshot
  -- employee, leave type, location, total, used and version of an HCM item
  hcm_balance : Text → Text → Option Text → ℤ → ℤ → Text → Snapshot
  status_ref : RequestStatus → Option Text → Snapshot
  status_only : RequestStatus → Snapshot

pub data Metadata : Type 0 where
  -- hold_id, effective_available_before
  created_meta : Text → ℤ → Metadata
  -- cancel_reason, previous_status
  cancelled_meta : Option Text → RequestStatus → Metadata
  -- outbox_id, idempotency_key, effective_available
  approved_meta : Text → IdempotencyKey → ℤ → Metadata
  rejected_meta : Text → Metadata
  -- outbox_id, hcm_version
  hcm_meta : Text → Text → Metadata
  -- outbox_id, error
  failed_meta : Text → ErrorText → Metadata
  -- new_effective
  flagged_meta : ℤ → Metadata
  holds_exceeded : Bool → Metadata
  -- drift, pending_hours
  drift_meta : ℤ → ℤ → Metadata
  -- drift, threshold, hcm_values, local total and used, pending_hours
  drift_values_meta : ℤ → ℤ → Snapshot → ℤ → ℤ → ℤ → Metadata
  version_meta : Text → Metadata

pub record AuditLogRow : Type 0 where
  pub id : Text
  pub entity_type : EntityType
  pub entity_id : EntityId
  pub action : AuditAction
  pub actor_type : ActorType
  pub actor_id : ActorId
  pub before_state : Option Snapshot
  pub after_state : Option Snapshot
  pub metadata : Option Metadata
  pub correlation_id : Option Text
  pub created_at : Text
