-- ===== src/System/Coherence.antt =====
-- Every write of the service, and the holds of requests that have ended.
use readyon.Base.{◌≡◌, refl, ⊤}
use readyon.Types.{Text, approved_pending_hcm}
use readyon.Errors.{AppError}
use readyon.Store.{World, Db, M, ok, now_iso}
use readyon.Hcm.Port.{HcmAdapterPort}
use readyon.Request.Repository.{no_extra}
use readyon.Request.Creation.{request_of, hold_of}
use readyon.System.{Steps, rest, more}
use readyon.System.Effects.{OnRequests, nothing, closes, moves, flags, makes, clears}
use readyon.System.Effects.Steps.{Step-Effect}
use readyon.System.Holds.{
  is_holding, Coherent, Coherent-none, Coherent-same, Coherent-closed, Coherent-moved,
  Coherent-flagged, Coherent-created,
}

effect-Coherent : (w : World) (db : Db) → OnRequests w db → Coherent w.db → Coherent db
unfolding is_holding
effect-Coherent w db (nothing rs hs) h = Coherent-same w.db db rs hs h
effect-Coherent w db (closes id s k v extra q found same over gone rs hs) h =
    Coherent-closed id s k v extra (now_iso w) w.db db gone rs hs h
effect-Coherent w db (moves id v q found same legal rs hs) h =
    Coherent-moved id approved_pending_hcm v no_extra w db q refl found same rs hs h
effect-Coherent w db (flags hs only) h = Coherent-flagged w (record w { db = db }) hs only h
effect-Coherent w db (makes e dto fresh rs hs) h =
    Coherent-created (request_of e dto w) (hold_of e dto w) refl refl w.db db fresh rs hs h
effect-Coherent w db (clears rs) h = Coherent-none db rs

module _ (trim : Text → Text) (port : HcmAdapterPort) (message : AppError → Text) (sync_mock : M ⊤)
    (silent : (w : World) → sync_mock w ≡ ok tt w) where
  -- If no request that has ended has an active hold, then this stays so over any sequence of the
  -- service's writes: creations, decisions, cancellations, answers and failures of the HCM system,
  -- batches, single updates, reconciliations and resets, each with any outcome and in any order. Ended means
  -- that the request neither waits for a manager or the HCM system nor is flagged. The mock's memory
  -- is not part of the tables.
  pub Steps-Coherent :
      {w w' : World} → Steps trim port message sync_mock w w' → Coherent w.db → Coherent w'.db
  Steps-Coherent rest h = h
  Steps-Coherent (more {u} {v} before step) h =
      effect-Coherent u v.db (Step-Effect trim port message sync_mock silent u v step).0
        (Steps-Coherent before h)
