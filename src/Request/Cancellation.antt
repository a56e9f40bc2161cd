-- ===== src/Request/Cancellation.antt =====
-- `RequestService.cancelRequest` in src/request/request.service.ts.
use readyon.Base.{
  count_where, count_where-cleared, ◌≡◌, refl, ◌∙◌, true, false, not, ◌==◌, none, some, List, [],
  ◌∷◌, ◌++◌, arith, Option, ℕ, ◌+◌, if◌then◌else◌, Bool-cases, inl, inr, update_where,
}
use readyon.Types.{
  Text, TimeOffRequestRow, IntegrationOutboxRow, cancelled, approved, approved_pending_hcm,
  same_status, cancel_key, cancel_payload, cancel_time_off, released, is_truthy,
  cancelled_by_employee, permanent,
}
use readyon.Store.{World, Returns, IsAtomic, now_iso}
use readyon.Store.Returns.{guard, need, transaction, weaken, conclude}
use readyon.StateMachine.{is_valid_transition, assert_valid_transition}
use readyon.Balance.Repository.{get_effective_available}
use readyon.Balance.Held.{available-of_total, total-end_holds}
use readyon.Hold.Repository as Holds
use readyon.Hold.Repository.{end_holds}
use readyon.Request.Repository.{find_by_id, set_status, set_statuses, no_extra}
use readyon.Request.Updates.{update_status_lem, find_by_id-set_statuses, find_by_id-same}
use readyon.Request.Inserts.{create_entry_ok, create_entry_err}
use readyon.Outbox.Repository as Outbox
use readyon.Outbox.Repository.{is_open_of, fail, new_entry}
use readyon.Request.Service.{
  UpdatedRequest, updated_view, own, cancel_row, cancel_request, cancel_request_tx,
}
use readyon.Audit

module _ (id e : Text) (v : ℕ) (reason c : Option Text) (w : World) where
  -- The outbox after a cancellation of a row: open entries of a request that waits for the HCM
  -- system fail, and a request that the HCM system has approved gets an entry to take it back.
  abbrev pub stopped : TimeOffRequestRow → List IntegrationOutboxRow
  stopped r =
      if same_status r.status approved_pending_hcm
      then update_where (is_open_of id) (fail cancelled_by_employee permanent (now_iso w))
          w.db.entries
      else w.db.entries

  abbrev pub compensation : TimeOffRequestRow → IntegrationOutboxRow
  compensation r =
      new_entry id cancel_time_off (cancel_key id (w.uuid w.drawn))
        (cancel_payload r.employee_id r.leave_type r.hcm_reference_id) none (w.uuid (w.drawn + 1))
        (now_iso w)

  abbrev pub compensated : TimeOffRequestRow → List IntegrationOutboxRow
  compensated r =
      if same_status r.status approved then stopped r ++ compensation r ∷ [] else stopped r

  -- The tables that a cancellation of a row leaves.
  abbrev pub Cancelled : TimeOffRequestRow → UpdatedRequest → World → Type 0
  Cancelled r u w' =
      (w'.db.requests ≡ (set_statuses id cancelled v no_extra (now_iso w) w.db).requests)
      × (w'.db.holds ≡ (end_holds released id (now_iso w) w.db).holds)
      × (w'.db.projections ≡ w.db.projections)
      × (w'.db.entries ≡ compensated r)
      × (u ≡ updated_view (set_status cancelled no_extra (now_iso w) r))

  module _ (r : TimeOffRequestRow) (found : find_by_id id w.db ≡ some r)
      (same : r.version ≡ v) where
    abbrev pub released_world : World
    released_world = record w {
      drawn = w.drawn + 1;
      db =
          end_holds released id (now_iso w) (set_statuses id cancelled v no_extra (now_iso w) w.db);
    }

    cancel_row-Cancelled : Returns (Cancelled r) (cancel_row r id e v reason c w)
    unfolding cancel_row Holds.release end_holds Outbox.cancel_by_request_id Audit.log set_statuses
    cancel_row-Cancelled =
        let update = update_status_lem id cancelled v no_extra w r found same in
        elim (Bool-cases (same_status r.status approved)) [
          | inl synced ↦
              let unsent : same_status r.status approved_pending_hcm ≡ false = ground arith in
              elim (Bool-cases (Outbox.violates (compensation r) released_world.db)) [
                | inl bad ↦
                    rw
                      (
                        update,
                        unsent,
                        synced,
                        create_entry_err id cancel_time_off (cancel_key id (w.uuid w.drawn))
                            (cancel_payload r.employee_id r.leave_type r.hcm_reference_id) none
                            released_world bad,
                        Returns,
                      )
                      tt
                | inr fine ↦
                    rw
                      (
                        update,
                        unsent,
                        synced,
                        create_entry_ok id cancel_time_off (cancel_key id (w.uuid w.drawn))
                            (cancel_payload r.employee_id r.leave_type r.hcm_reference_id) none
                            released_world fine,
                        Returns,
                      )
                      (refl, refl, refl, ground arith, refl)
              ]
          | inr unsynced ↦ elim (Bool-cases (same_status r.status approved_pending_hcm)) [
            | inl waits ↦
                rw (update, waits, unsynced, Returns) (refl, refl, refl, ground arith, refl)
            | inr idle ↦ rw (update, idle, unsynced, Returns) (refl, refl, refl, ground arith, refl)
          ]
        ]

  -- What a cancellation has checked, and what it has done.
  abbrev pub Revoked : UpdatedRequest → World → Type 0
  Revoked u w' =
      (r : TimeOffRequestRow) × (find_by_id id w.db ≡ some r)
      × (r.employee_id ≡ e)
      × (r.version ≡ v)
      × (is_valid_transition r.status cancelled ≡ true)
      × (find_by_id id w'.db ≡ some (set_status cancelled no_extra (now_iso w) r))
      × Cancelled r u w'

  own-found :
      (o : Option TimeOffRequestRow) (r : TimeOffRequestRow)
      → own e o ≡ some r
      → (o ≡ some r) × (r.employee_id ≡ e)
  own-found none r h = ground arith
  own-found (some q) r h = ground arith

  -- `cancelRequest` either raises and changes no table, or it cancels the caller's own request, at
  -- the version that the caller has seen and from a status that allows it: the version goes up by
  -- one, the hold is released, open outbox entries of a request that waits for the HCM system fail,
  -- and for an approved request an entry to take it back is added.
  pub cancel_request-IsAtomic : IsAtomic w.db Revoked (cancel_request id e v reason c w)
  unfolding cancel_request cancel_request_tx assert_valid_transition
  cancel_request-IsAtomic = transaction Revoked (cancel_request_tx id e v reason c) w (
      need Revoked (own e (find_by_id id w.db)) _ _ w λ r mine.
        guard Revoked (not (is_valid_transition r.status cancelled)) _ _ w λ allowed.
          guard Revoked (not (r.version == v)) _ _ w λ current.
            let (found, owner) = own-found (find_by_id id w.db) r mine in
            let same : r.version ≡ v = ground arith in
            weaken (Cancelled r) Revoked (cancel_row r id e v reason c w)
              (cancel_row-Cancelled r found same)
              (λ u w' done. (
                r,
                found,
                owner,
                same,
                ground arith,
                find_by_id-same id w'.db _ done.0
                    ∙ find_by_id-set_statuses id cancelled v no_extra w r found same,
                done,
              )))

  -- After a cancellation the request holds nothing back: what is available of any key is what was
  -- available without this request's hold.
  pub cancel_request-available :
      (a t l : Text)
      → is_truthy id ≡ true
      → Returns
          (λ _ w'.
            get_effective_available a t l none w'.db ≡ get_effective_available a t l (some id) w.db)
          (cancel_request id e v reason c w)
  cancel_request-available a t l given =
      conclude w.db Revoked _ (cancel_request id e v reason c w) cancel_request-IsAtomic
        (λ u w' (r, _, _, _, _, _, done).
          available-of_total a t l none (some id) w.db w'.db done.2
            (total-end_holds a t l released id (now_iso w) w.db w'.db refl given done.1))

  -- After the cancellation of a request that waited for the HCM system, the outbox has no open
  -- entry for it.
  pub cancel_request-no_open_entry :
      (r : TimeOffRequestRow)
      → find_by_id id w.db ≡ some r
      → r.status ≡ approved_pending_hcm
      → Returns
          (λ _ w'. count_where (is_open_of id) w'.db.entries ≡ 0)
          (cancel_request id e v reason c w)
  cancel_request-no_open_entry r found waits =
      conclude w.db Revoked _ (cancel_request id e v reason c w) cancel_request-IsAtomic
        (λ u w' (q, found', _, _, _, _, done).
          let same : q.status ≡ approved_pending_hcm = cc in
          rw (done.3, same)
            (count_where-cleared (is_open_of id) (fail cancelled_by_employee permanent (now_iso w))
              (λ x h. ground arith) w.db.entries))
