-- ===== src/System/Effects.antt =====
-- What each write of the service can do to the requests, the holds and the projections.
pub mod Operations
pub mod Steps
use readyon.Base.{◌≡◌, true, ap, some, ℤ}
use readyon.Types.{Text, RequestStatus, TimeOffRequestRow, approved_pending_hcm, approved}
use readyon.Store.{World, Db, now_iso}
use readyon.Request.Repository.{find_by_id, no_extra}
use readyon.Request.Service.{CreateTimeOffRequestDto}
use readyon.StateMachine.{is_valid_transition}
use readyon.Request.Creation.{request_of, hold_of}
use readyon.Types.{HoldStatus, is_active}
use readyon.Request.Repository.{Extra, set_statuses}
use readyon.Hold.Repository.{end_holds}
use readyon.Batch.Flags.{OnlyFlags}
use readyon.Balance.Repository.{deduct, overwrite, new_projection}
use readyon.Balance.Updates.{Replaced, Inserted}
use readyon.System.Holds.{is_holding}
use readyon.Base.{◌==◌, false, any, [], ◌∷◌, ◌++◌, ℕ}

-- What a step does to the requests and their holds.
pub data OnRequests (w : World) (db : Db) : Type 0 where
  nothing : db.requests ≡ w.db.requests → db.holds ≡ w.db.holds → OnRequests w db
  -- A request ends, and its hold with it.
  closes :
      (id : Text) (s : RequestStatus) (hs : HoldStatus) (v : ℕ) (extra : Extra)
      (q : TimeOffRequestRow)
      → find_by_id id w.db ≡ some q
      → q.version ≡ v
      → is_holding s ≡ false
      → is_active hs ≡ false
      → db.requests ≡ (set_statuses id s v extra (now_iso w) w.db).requests
      → db.holds ≡ (end_holds hs id (now_iso w) w.db).holds
      → OnRequests w db
  -- A request is approved by its manager.
  moves :
      (id : Text) (v : ℕ) (q : TimeOffRequestRow)
      → find_by_id id w.db ≡ some q
      → q.version ≡ v
      → is_valid_transition q.status approved_pending_hcm ≡ true
      → db.requests ≡ (set_statuses id approved_pending_hcm v no_extra (now_iso w) w.db).requests
      → db.holds ≡ w.db.holds
      → OnRequests w db
  flags : db.holds ≡ w.db.holds → OnlyFlags w (record w { db = db }) → OnRequests w db
  makes :
      (e : Text) (dto : CreateTimeOffRequestDto)
      → any (λ (q : TimeOffRequestRow). q.id == w.uuid w.drawn) w.db.requests ≡ false
      → db.requests ≡ w.db.requests ++ request_of e dto w ∷ []
      → db.holds ≡ w.db.holds ++ hold_of e dto w ∷ []
      → OnRequests w db
  clears : db.requests ≡ [] → OnRequests w db

-- What a step does to the projections.
pub data OnRows (w : World) (db : Db) : Type 0 where
  no_write : db.projections ≡ w.db.projections → OnRows w db
  deducts :
      (e t l : Text) (v : ℕ) (hours : ℤ)
      → Replaced e t l v (deduct hours (now_iso w)) w.db db
      → OnRows w db
  overwrites :
      (e t l : Text) (v : ℕ) (total used : ℤ) (version : Text)
      → Replaced e t l v (overwrite total used version (now_iso w)) w.db db
      → OnRows w db
  inserts :
      (e t l : Text) (total used : ℤ) (version id : Text)
      → Inserted (new_projection e t l total used version id (now_iso w)) w.db db
      → OnRows w db
  empties : db.projections ≡ [] → OnRows w db

abbrev pub Effect : World → Db → Type 0
Effect w db = OnRequests w db × OnRows w db

pub no_effect : (w : World) (db : Db) → db ≡ w.db → Effect w db
no_effect w db same = (
  nothing (ap (λ (d : Db). d.requests) same) (ap (λ (d : Db). d.holds) same),
  no_write (ap (λ (d : Db). d.projections) same),
)
