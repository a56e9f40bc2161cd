-- ===== src/System/Reservations.antt =====
-- Every write of the service, and the holds of requests that wait.
use readyon.Base.{◌≡◌, true, false, arith, ⊤}
use readyon.Types.{Text, RequestStatus, approved_pending_hcm}
use readyon.Errors.{AppError}
use readyon.Store.{World, Db, M, ok}
use readyon.Hcm.Port.{HcmAdapterPort}
use readyon.Request.Repository.{no_extra}
use readyon.Request.Creation.{request_of, hold_of}
use readyon.System.{Steps, rest, more}
use readyon.System.Effects.{OnRequests, nothing, closes, moves, flags, makes, clears}
use readyon.System.Effects.Steps.{Step-Effect}
use readyon.StateMachine.{is_valid_transition, is_hold_active_status}
use readyon.Request.Service.{CreateTimeOffRequestDto}
use readyon.System.Holds.{is_holding}
use readyon.System.Reserved.{
  keeps_back, Reserved, Reserved-same, Reserved-none, Reserved-closed, Reserved-moved,
  Reserved-flagged, Reserved-created,
}

-- Only a request that waits for its manager can be approved.
may_move :
    (s : RequestStatus)
    → is_valid_transition s approved_pending_hcm ≡ true
    → is_hold_active_status s ≡ true
unfolding is_valid_transition is_hold_active_status
may_move s h = ground arith

not_waiting : (s : RequestStatus) → is_holding s ≡ false → is_hold_active_status s ≡ false
unfolding is_holding
not_waiting s h = ground arith

new_kept :
    (e : Text) (dto : CreateTimeOffRequestDto) (w : World)
    → keeps_back (w.uuid w.drawn) dto.hours_requested (hold_of e dto w) ≡ true
new_kept e dto w = ground arith

effect-Reserved : (w : World) (db : Db) → OnRequests w db → Reserved w.db → Reserved db
effect-Reserved w db (nothing rs hs) h = Reserved-same w.db db rs hs h
effect-Reserved w db (closes id s k v extra q found same over gone rs hs) h =
    Reserved-closed id s v extra w db q found same rs h k (not_waiting s over) hs
effect-Reserved w db (moves id v q found same legal rs hs) h =
    Reserved-moved id approved_pending_hcm v no_extra w db q found same rs h
      (may_move q.status legal) hs
effect-Reserved w db (flags hs only) h = Reserved-flagged w (record w { db = db }) hs only h
effect-Reserved w db (makes e dto fresh rs hs) h =
    Reserved-created (request_of e dto w) (hold_of e dto w) (new_kept e dto w) w.db db rs hs h
effect-Reserved w db (clears rs) h = Reserved-none db rs

module _ (trim : Text → Text) (port : HcmAdapterPort) (message : AppError → Text) (sync_mock : M ⊤)
    (silent : (w : World) → sync_mock w ≡ ok tt w) where
  -- If every request that waits for a manager or for the HCM system has an active hold of at least
  -- its hours, then this stays so over any sequence of the service's writes: creations, decisions,
  -- cancellations, answers and failures of the HCM system, batches, single updates, reconciliations
  -- and resets, each with any outcome and in any order. The mock's memory is not part of the tables.
  pub Steps-Reserved :
      {w w' : World} → Steps trim port message sync_mock w w' → Reserved w.db → Reserved w'.db
  Steps-Reserved rest h = h
  Steps-Reserved (more {u} {v} before step) h =
      effect-Reserved u v.db (Step-Effect trim port message sync_mock silent u v step).0
        (Steps-Reserved before h)
