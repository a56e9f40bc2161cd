-- ===== src/Request/Approval.antt =====
-- `RequestService.approveRequest` in src/request/request.service.ts.
use readyon.Base.{
  ◌≡◌, refl, ◌∙◌, true, false, not, ◌==◌, none, some, [], ◌∷◌, ◌++◌, arith, Option, ℕ, ◌+◌, ℤ, ◌≤ℤ◌,
  ltb_ℤ, ltb_ℤ→≤ℤ, Bool-cases, inl, inr,
}
use readyon.Types.{
  Text, TimeOffRequestRow, IntegrationOutboxRow, approved_pending_hcm, pto_key, post_payload,
  post_time_off, or_default, hq,
}
use readyon.Store.{World, Returns, IsAtomic, now_iso}
use readyon.Store.Returns.{guard, need, transaction, weaken}
use readyon.StateMachine.{is_valid_transition, assert_valid_transition}
use readyon.Balance.Repository.{get_effective_available}
use readyon.Request.Repository.{find_by_id, set_status, set_statuses, no_extra}
use readyon.Request.Updates.{update_status_lem, find_by_id-set_statuses, find_by_id-same}
use readyon.Request.Inserts.{create_entry_ok, create_entry_err}
use readyon.Outbox.Repository as Outbox
use readyon.Outbox.Repository.{new_entry}
use readyon.Request.Service.{
  UpdatedRequest, updated_view, is_other_manager, approve_row, approve_request, approve_request_tx,
}
use readyon.Audit

module _ (id m : Text) (v : ℕ) (c : Option Text) (w : World) where
  -- The outbox entry of an approval.
  abbrev pub posting : TimeOffRequestRow → IntegrationOutboxRow
  posting r =
      new_entry id post_time_off (pto_key id (w.uuid w.drawn))
        (post_payload r.employee_id r.leave_type r.start_date r.end_date r.hours_requested) none
        (w.uuid (w.drawn + 1)) (now_iso w)

  -- The tables that an approval of a row leaves.
  abbrev pub Posted : TimeOffRequestRow → UpdatedRequest → World → Type 0
  Posted r u w' =
      (w'.db.requests ≡ (set_statuses id approved_pending_hcm v no_extra (now_iso w) w.db).requests)
      × (w'.db.holds ≡ w.db.holds)
      × (w'.db.projections ≡ w.db.projections)
      × (w'.db.entries ≡ w.db.entries ++ posting r ∷ [])
      × (u ≡ updated_view (set_status approved_pending_hcm no_extra (now_iso w) r))

  module _ (r : TimeOffRequestRow) (found : find_by_id id w.db ≡ some r) (same : r.version ≡ v)
      (available : ℤ) where
    abbrev pub updated_world : World
    updated_world = record w {
      drawn = w.drawn + 1;
      db = set_statuses id approved_pending_hcm v no_extra (now_iso w) w.db;
    }

    approve_row-Posted : Returns (Posted r) (approve_row r id m v available c w)
    unfolding approve_row set_statuses Audit.log
    approve_row-Posted =
        let update = update_status_lem id approved_pending_hcm v no_extra w r found same in
        let key = pto_key id (w.uuid w.drawn) in
        let payload =
          post_payload r.employee_id r.leave_type r.start_date r.end_date r.hours_requested in
        elim (Bool-cases (Outbox.violates (posting r) updated_world.db)) [
          | inl bad ↦
              rw
                (
                  update,
                  create_entry_err id post_time_off key payload none updated_world bad,
                  Returns,
                )
                tt
          | inr fine ↦
              rw
                (
                  update,
                  create_entry_ok id post_time_off key payload none updated_world fine,
                  Returns,
                )
                (refl, refl, refl, refl, refl)
        ]

  -- What an approval has checked, and what it has done.
  abbrev pub Approved : UpdatedRequest → World → Type 0
  Approved u w' =
      (r : TimeOffRequestRow) × (find_by_id id w.db ≡ some r)
      × (is_other_manager r.manager_id m ≡ false)
      × (r.version ≡ v)
      × (is_valid_transition r.status approved_pending_hcm ≡ true)
      × (r.hours_requested
          ≤ℤ get_effective_available r.employee_id r.leave_type (or_default r.location hq) (some id)
              w.db)
      × (find_by_id id w'.db ≡ some (set_status approved_pending_hcm no_extra (now_iso w) r))
      × Posted r u w'

  -- `approveRequest` either raises and changes no table, or no other manager owns the request, it
  -- is at the version that the caller has seen and in a status that allows it, and its hours are
  -- available without its own hold: then its status and version are updated, one pending entry with
  -- its hours is added to the outbox, and no hold or projection moves.
  pub approve_request-IsAtomic : IsAtomic w.db Approved (approve_request id m v c w)
  unfolding approve_request approve_request_tx assert_valid_transition
  approve_request-IsAtomic = transaction Approved (approve_request_tx id m v c) w (
      need Approved (find_by_id id w.db) _ _ w λ r found.
        guard Approved (is_other_manager r.manager_id m) _ _ w λ manages.
          guard Approved (not (is_valid_transition r.status approved_pending_hcm)) _ _ w λ allowed.
            guard Approved (not (r.version == v)) _ _ w λ current.
              let available =
                get_effective_available r.employee_id r.leave_type (or_default r.location hq)
                  (some id) w.db in
              guard Approved (ltb_ℤ available r.hours_requested) _ _ w λ enough.
                let same : r.version ≡ v = ground arith in
                weaken (Posted r) Approved (approve_row r id m v available c w)
                  (approve_row-Posted r found same available)
                  (λ u w' done. (
                    r,
                    found,
                    manages,
                    same,
                    ground arith,
                    ltb_ℤ→≤ℤ available r.hours_requested enough,
                    find_by_id-same id w'.db _ done.0
                        ∙ find_by_id-set_statuses id approved_pending_hcm v no_extra w r found same,
                    done,
                  )))
