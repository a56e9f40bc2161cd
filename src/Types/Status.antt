-- ===== src/Types/Status.antt =====
-- The enums of src/common/types/index.ts.
use readyon.Base.{Bool, true, false}

pub data RequestStatus : Type 0 where
  pending_approval approved_pending_hcm approved rejected cancelled failed_hcm : RequestStatus
  reconciliation_required : RequestStatus

pub data HoldStatus : Type 0 where
  active released converted : HoldStatus

pub data OutboxStatus : Type 0 where
  pending processing completed failed : OutboxStatus

pub data OutboxAction : Type 0 where
  post_time_off cancel_time_off : OutboxAction

pub data BatchStatus : Type 0 where
  batch_processing batch_completed batch_partial batch_failed : BatchStatus

pub data EntityType : Type 0 where
  request balance hold outbox batch : EntityType

pub data ActorType : Type 0 where
  employee manager system hcm : ActorType

pub data ErrorCode : Type 0 where
  validation_error invalid_state_transition not_found forbidden insufficient_balance : ErrorCode
  overlapping_request version_conflict duplicate_request stale_batch internal_error : ErrorCode

pub data HcmErrorCategory : Type 0 where
  transient permanent : HcmErrorCategory

-- `===` on request statuses.
abbrev pub same_status : RequestStatus → RequestStatus → Bool
same_status pending_approval pending_approval = true
same_status approved_pending_hcm approved_pending_hcm = true
same_status approved approved = true
same_status rejected rejected = true
same_status cancelled cancelled = true
same_status failed_hcm failed_hcm = true
same_status reconciliation_required reconciliation_required = true
same_status _ _ = false

abbrev pub is_active : HoldStatus → Bool
is_active active = true
is_active _ = false

-- `status = 'PENDING'` on an outbox entry.
abbrev pub is_pending : OutboxStatus → Bool
is_pending pending = true
is_pending _ = false

-- `status IN ('PENDING', 'PROCESSING')` on an outbox entry.
abbrev pub is_open : OutboxStatus → Bool
is_open pending = true
is_open processing = true
is_open _ = false
