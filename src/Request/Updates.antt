-- ===== src/Request/Updates.antt =====
-- `RequestRepository.updateStatus`: the optimistic lock by version.
use readyon.Base.{
  ap, ==_iff, find_first_holds, ◌≡◌, refl, true, ◌==◌, some, arith, find_first, count_where-found,
  find_first-update_where, find_first-update_where-other, false, ℕ,
}
use readyon.Types.{Text, TimeOffRequestRow, RequestStatus}
use readyon.Store.{World, Db, ok, now_iso}
use readyon.Request.Repository.{
  Extra, find_by_id, update_status, set_status, set_statuses, is_at_version,
}

-- The request that a row was found by has its identifier.
pub find_by_id-id :
    (id : Text) (db : Db) (r : TimeOffRequestRow) → find_by_id id db ≡ some r → r.id ≡ id
unfolding find_by_id
find_by_id-id id db r e =
    (==_iff r.id id).0 (find_first_holds (λ (q : TimeOffRequestRow). q.id == id) db.requests r e)

module _ (id : Text) (status : RequestStatus) (v : ℕ) (extra : Extra) (w : World)
    (r : TimeOffRequestRow) (e : find_by_id id w.db ≡ some r) where
  at_version : r.version ≡ v → is_at_version id v r ≡ true
  at_version same = ground (arith, find_by_id-id id w.db r e)

  -- The row after the update.
  pub find_by_id-set_statuses :
      r.version ≡ v
      → find_by_id id (set_statuses id status v extra (now_iso w) w.db)
        ≡ some (set_status status extra (now_iso w) r)
  unfolding set_statuses find_by_id
  find_by_id-set_statuses same =
      rw
        (find_first-update_where (λ (q : TimeOffRequestRow). q.id == id) (is_at_version id v)
          (set_status status extra (now_iso w)) (λ y. refl) w.db.requests r e)
        (rw (at_version same))

  -- At the version that the row has, the update is made and read back.
  pub update_status_lem :
      r.version ≡ v
      → update_status id status v extra w
        ≡ ok
            (set_status status extra (now_iso w) r)
            (record w { db = set_statuses id status v extra (now_iso w) w.db })
  unfolding update_status
  update_status_lem same =
      rw
        (count_where-found (λ (q : TimeOffRequestRow). q.id == id) (is_at_version id v)
          w.db.requests r (unfold find_by_id in e) (at_version same))
        (rw (find_by_id-set_statuses same))

-- A request is found in the table of requests alone.
pub find_by_id-same :
    (id : Text) (db db' : Db) → db.requests ≡ db'.requests → find_by_id id db ≡ find_by_id id db'
unfolding find_by_id
find_by_id-same id db db' h = ap (find_first (λ r. r.id == id)) h

-- The other requests are found as they were.
pub find_by_id-set_statuses-other :
    (id j : Text) (status : RequestStatus) (v : ℕ) (extra : Extra) (now : Text) (db : Db)
    → (id == j) ≡ false
    → find_by_id j (set_statuses id status v extra now db) ≡ find_by_id j db
unfolding find_by_id set_statuses
find_by_id-set_statuses-other id j status v extra now db apart =
    find_first-update_where-other (λ (q : TimeOffRequestRow). q.id == j) (is_at_version id v)
      (set_status status extra now) (λ y h. ground arith) (λ y. refl) db.requests
