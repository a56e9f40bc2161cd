-- ===== src/System/Soundness.antt =====
-- Every write of the service, and the rows of the projections.
use readyon.Base.{◌≡◌, ⊤}
use readyon.Types.{Text}
use readyon.Errors.{AppError}
use readyon.Store.{World, Db, M, ok, now_iso}
use readyon.Hcm.Port.{HcmAdapterPort}
use readyon.System.{Steps, rest, more}
use readyon.System.Effects.{OnRows, no_write, deducts, overwrites, inserts, empties}
use readyon.System.Effects.Steps.{Step-Effect}
use readyon.System.Rows.{
  Sound, Sound-none, Sound-same, Sound-deducted, Sound-overwritten, Sound-Inserted,
}

effect-Sound : (w : World) (db : Db) → OnRows w db → Sound w.db → Sound db
effect-Sound w db (no_write ps) h = Sound-same w.db db ps h
effect-Sound w db (deducts e t l v hours taken) h =
    Sound-deducted e t l v hours (now_iso w) w.db db taken h
effect-Sound w db (overwrites e t l v total used version written) h =
    Sound-overwritten e t l total used version (now_iso w) w.db db v written h
effect-Sound w db (inserts e t l total used version id made) h =
    Sound-Inserted e t l total used version (now_iso w) w.db db id made h
effect-Sound w db (empties ps) h = Sound-none db ps

module _ (trim : Text → Text) (port : HcmAdapterPort) (message : AppError → Text) (sync_mock : M ⊤)
    (silent : (w : World) → sync_mock w ≡ ok tt w) where
  -- If in every projection the available hours are the total less the used ones, and none of the
  -- three is negative, then this stays so over any sequence of the service's writes: creations,
  -- decisions, cancellations, answers and failures of the HCM system, batches, single updates,
  -- reconciliations and resets, each with any outcome and in any order. The mock's memory is not
  -- part of the tables.
  pub Steps-Sound :
      {w w' : World} → Steps trim port message sync_mock w w' → Sound w.db → Sound w'.db
  Steps-Sound rest h = h
  Steps-Sound (more {u} {v} before step) h =
      effect-Sound u v.db (Step-Effect trim port message sync_mock silent u v step).1
        (Steps-Sound before h)
