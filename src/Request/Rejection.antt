-- ===== src/Request/Rejection.antt =====
-- `RequestService.rejectRequest` in src/request/request.service.ts.
use readyon.Base.{◌≡◌, refl, ◌∙◌, true, false, not, ◌==◌, ◌||◌, none, some, arith, Option, ℕ}
use readyon.Types.{Text, TimeOffRequestRow, rejected, released, is_truthy}
use readyon.Store.{World, Returns, IsAtomic, now_iso}
use readyon.Store.Returns.{guard, need, transaction, weaken, refuse, conclude}
use readyon.StateMachine.{is_valid_transition, assert_valid_transition}
use readyon.Balance.Repository.{get_effective_available}
use readyon.Balance.Held.{available-of_total, total-end_holds}
use readyon.Hold.Repository as Holds
use readyon.Hold.Repository.{end_holds}
use readyon.Request.Repository.{find_by_id, set_status, set_statuses, Extra}
use readyon.Request.Updates.{update_status_lem, find_by_id-set_statuses, find_by_id-same}
use readyon.Request.Service.{
  UpdatedRequest, updated_view, is_other_manager, reject_row, reject_request, reject_request_tx,
}
use readyon.Audit

module _ (trim : Text → Text) (id m : Text) (v : ℕ) (reason : Text) (c : Option Text)
    (w : World) where
  abbrev pub with_reason : Extra
  with_reason = record { rejection_reason = some reason; hcm_reference_id = none }

  -- The tables that a rejection of a row leaves.
  abbrev pub TurnedDown : TimeOffRequestRow → UpdatedRequest → World → Type 0
  TurnedDown r u w' =
      (w'.db.requests ≡ (set_statuses id rejected v with_reason (now_iso w) w.db).requests)
      × (w'.db.holds ≡ (end_holds released id (now_iso w) w.db).holds)
      × (w'.db.projections ≡ w.db.projections)
      × (w'.db.entries ≡ w.db.entries)
      × (u ≡ updated_view (set_status rejected with_reason (now_iso w) r))

  reject_row-TurnedDown :
      (r : TimeOffRequestRow)
      → find_by_id id w.db ≡ some r
      → r.version ≡ v
      → Returns (TurnedDown r) (reject_row r id m v reason c w)
  unfolding reject_row Holds.release end_holds Audit.log set_statuses
  reject_row-TurnedDown r found same =
      rw (update_status_lem id rejected v with_reason w r found same, Returns)
        (refl, refl, refl, refl, refl)

  -- What a rejection has checked, and what it has done.
  abbrev pub Rejected : UpdatedRequest → World → Type 0
  Rejected u w' =
      (r : TimeOffRequestRow) × (is_truthy (trim reason) ≡ true)
      × (find_by_id id w.db ≡ some r)
      × (is_other_manager r.manager_id m ≡ false)
      × (r.version ≡ v)
      × (is_valid_transition r.status rejected ≡ true)
      × (find_by_id id w'.db ≡ some (set_status rejected with_reason (now_iso w) r))
      × TurnedDown r u w'

  -- `rejectRequest` either raises and changes no table, or the reason is not blank, no other manager
  -- owns the request, and it is at the version that the caller has seen and in a status that allows
  -- it: then its status, reason and version are updated, its hold is released, and no projection or
  -- outbox entry moves.
  pub reject_request-IsAtomic : IsAtomic w.db Rejected (reject_request trim id m v reason c w)
  unfolding reject_request reject_request_tx assert_valid_transition
  reject_request-IsAtomic =
      refuse w.db Rejected (not (is_truthy reason) || not (is_truthy (trim reason))) _ _ w refl
        λ given. transaction Rejected (reject_request_tx id m v reason c) w (
          need Rejected (find_by_id id w.db) _ _ w λ r found.
            guard Rejected (is_other_manager r.manager_id m) _ _ w λ manages.
              guard Rejected (not (is_valid_transition r.status rejected)) _ _ w λ allowed.
                guard Rejected (not (r.version == v)) _ _ w λ current.
                  let same : r.version ≡ v = ground arith in
                  weaken (TurnedDown r) Rejected (reject_row r id m v reason c w)
                    (reject_row-TurnedDown r found same)
                    (λ u w' done. (
                      r,
                      ground arith,
                      found,
                      manages,
                      same,
                      ground arith,
                      find_by_id-same id w'.db _ done.0
                          ∙ find_by_id-set_statuses id rejected v with_reason w r found same,
                      done,
                    )))

  -- After a rejection the request holds nothing back.
  pub reject_request-available :
      (a t l : Text)
      → is_truthy id ≡ true
      → Returns
          (λ _ w'.
            get_effective_available a t l none w'.db ≡ get_effective_available a t l (some id) w.db)
          (reject_request trim id m v reason c w)
  reject_request-available a t l given =
      conclude w.db Rejected _ (reject_request trim id m v reason c w) reject_request-IsAtomic
        (λ u w' (r, _, _, _, _, _, _, done).
          available-of_total a t l none (some id) w.db w'.db done.2
            (total-end_holds a t l released id (now_iso w) w.db w'.db refl given done.1))
