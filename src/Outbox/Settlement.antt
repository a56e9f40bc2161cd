-- ===== src/Outbox/Settlement.antt =====
-- The transaction that `OutboxProcessor.sweep` runs after a successful `postTimeOff`.
pub mod Available
use readyon.Base.{
  ◌≡◌, refl, ◌∙◌, true, none, some, arith, Option, ℤ, ◌-ℤ◌, int_laws, Bool-cases, Option-cases, inl,
  inr, ◌⊎◌,
}
use readyon.Types.{
  Text, or_default, hq, is_truthy, TimeOffRequestRow, BalanceProjectionRow, IntegrationOutboxRow,
  approved_pending_hcm, approved, converted, changed_during_call, permanent,
}
use readyon.Store.{World, Returns, IsAtomic, now_iso, run_in_transaction}
use readyon.Store.Returns.{transaction, weaken, conclude}
use readyon.Balance.Repository.{
  find_by_employee_and_type, get_effective_available, deduct, apply_deduction,
}
use readyon.Balance.Held.{total-end_holds, same_projection}
use readyon.Balance.Updates.{
  Replaced, breaks, find-with_projection, update_projection_ok, update_projection_err,
}
use readyon.Hold.Repository as Holds
use readyon.Hold.Repository.{end_holds}
use readyon.Request.Repository.{find_by_id, set_status, set_statuses, Extra}
use readyon.Request.Updates.{update_status_lem, find_by_id-set_statuses, find_by_id-same}
use readyon.Outbox.Repository.{mark_completed, mark_failed, complete, fail, update_entry}
use readyon.Outbox.Processor.{in_status, confirm_post, settle_post, deduct_if_known}
use readyon.Hcm.Port.{HcmPostTimeOffResponse}
use readyon.Audit

module _ (entry : IntegrationOutboxRow) (e t : Text) (hours : ℤ) (answer : HcmPostTimeOffResponse)
    (w : World) where
  abbrev pub with_reference : Extra
  with_reference = record { rejection_reason = none; hcm_reference_id = answer.hcm_reference_id }

  -- The tables before the projection is touched.
  abbrev pub converted_world : TimeOffRequestRow → World
  converted_world r = record w {
    db =
        end_holds converted entry.request_id (now_iso w)
          (set_statuses entry.request_id approved r.version with_reference (now_iso w) w.db);
  }

  -- The tables that a confirmed deduction leaves.
  abbrev pub Confirmed : TimeOffRequestRow → World → Type 0
  Confirmed r w' =
      (w'.db.requests
        ≡ (set_statuses entry.request_id approved r.version with_reference (now_iso w)
            w.db).requests)
      × (w'.db.holds ≡ (end_holds converted entry.request_id (now_iso w) w.db).holds)
      × (w'.db.entries ≡ (update_entry entry.id (complete (now_iso w)) w.db).entries)

  abbrev pub Deducted : TimeOffRequestRow → BalanceProjectionRow → World → Type 0
  Deducted r p w' =
      Confirmed r w'
      × Replaced e t (or_default r.location hq) p.version (deduct hours (now_iso w)) w.db w'.db

  module _ (r : TimeOffRequestRow) (found : find_by_id entry.request_id w.db ≡ some r) where
    abbrev loc : Text
    loc = or_default r.location hq

    confirm_post-unknown :
        find_by_employee_and_type e t loc w.db ≡ none
        → Returns
            (λ _ w'. Confirmed r w' × (w'.db.projections ≡ w.db.projections))
            (confirm_post entry e t hours answer r w)
    unfolding confirm_post Holds.convert mark_completed Audit.log deduct_if_known set_statuses
        end_holds
    confirm_post-unknown unknown =
        let update =
          update_status_lem entry.request_id approved r.version with_reference w r found refl in
        let same = same_projection e t loc w.db (converted_world r).db refl ∙ unknown in
        rw (update, same, Returns) ((refl, refl, refl), refl)

    confirm_post-Deducted :
        (p : BalanceProjectionRow)
        → find_by_employee_and_type e t loc w.db ≡ some p
        → Returns (λ _. Deducted r p) (confirm_post entry e t hours answer r w)
    unfolding confirm_post Holds.convert mark_completed Audit.log deduct_if_known apply_deduction
        set_statuses end_holds
    confirm_post-Deducted p known =
        let update =
          update_status_lem entry.request_id approved r.version with_reference w r found refl in
        let same = same_projection e t loc w.db (converted_world r).db refl ∙ known in
        elim (Bool-cases (breaks e t loc p.version (deduct hours (now_iso w)) w.db)) [
          | inl bad ↦
              rw
                (
                  update,
                  same,
                  update_projection_err e t loc p.version (deduct hours (now_iso w))
                      (converted_world r) bad,
                  Returns,
                )
                tt
          | inr fine ↦
              rw
                (
                  update,
                  same,
                  update_projection_ok e t loc (deduct hours (now_iso w)) (λ q. refl)
                      (converted_world r) p same fine,
                  Returns,
                )
                ((refl, refl, refl), (fine, refl))
        ]

  -- The request still waits for the HCM system, and its deduction is confirmed.
  abbrev pub Accepted : World → Type 0
  Accepted w' =
      (r : TimeOffRequestRow) × (find_by_id entry.request_id w.db ≡ some r)
      × (r.status ≡ approved_pending_hcm)
      × (find_by_id entry.request_id w'.db
          ≡ some (set_status approved with_reference (now_iso w) r))
      × Confirmed r w'
      × (((find_by_employee_and_type e t (or_default r.location hq) w.db ≡ none)
            × (w'.db.projections ≡ w.db.projections))
          ⊎ ((p : BalanceProjectionRow) × (find_by_employee_and_type e t (or_default r.location hq)
                  w.db
                ≡ some p)
              × Replaced e t (or_default r.location hq) p.version (deduct hours (now_iso w)) w.db
                  w'.db))

  -- The request has left that status while the call was awaited: only the entry is marked.
  abbrev pub Overtaken : World → Type 0
  Overtaken w' =
      (in_status approved_pending_hcm (find_by_id entry.request_id w.db) ≡ none)
      × (w'.db ≡ update_entry entry.id (fail changed_during_call permanent (now_iso w)) w.db)

  in_status-some :
      (o : Option TimeOffRequestRow) (r : TimeOffRequestRow)
      → in_status approved_pending_hcm o ≡ some r
      → (o ≡ some r) × (r.status ≡ approved_pending_hcm)
  in_status-some none r h = ground arith
  in_status-some (some q) r h = ground arith

  confirm_post-Accepted :
      (r : TimeOffRequestRow)
      → find_by_id entry.request_id w.db ≡ some r
      → r.status ≡ approved_pending_hcm
      → Returns (λ _. Accepted) (confirm_post entry e t hours answer r w)
  confirm_post-Accepted r found waits =
      let row = λ (w' : World) (done : Confirmed r w').
        find_by_id-same entry.request_id w'.db _ done.0
        ∙ find_by_id-set_statuses entry.request_id approved r.version with_reference w r found
            refl in
      elim (Option-cases (find_by_employee_and_type e t (or_default r.location hq) w.db)) [
        | inl unknown ↦
            weaken _ (λ _. Accepted) (confirm_post entry e t hours answer r w)
              (confirm_post-unknown r found unknown)
              (λ _ w' (done, kept). (r, found, waits, row w' done, done, inl (unknown, kept)))
        | inr (p, known) ↦
            weaken _ (λ _. Accepted) (confirm_post entry e t hours answer r w)
              (confirm_post-Deducted r found p known)
              (λ _ w' (done, taken). (r, found, waits, row w' done, done, inr (p, known, taken)))
      ]

  settle_post-Returns :
      Returns (λ _ w'. Overtaken w' ⊎ Accepted w') (settle_post entry e t hours answer w)
  unfolding settle_post mark_failed
  settle_post-Returns =
      elim (Option-cases (in_status approved_pending_hcm (find_by_id entry.request_id w.db))) [
        | inl gone ↦ rw (gone, Returns) (inl (gone, refl))
        | inr (r, waits) ↦
            let (found, status) = in_status-some (find_by_id entry.request_id w.db) r waits in
            rw (waits, Returns)
              (weaken (λ _. Accepted) (λ _ w'. Overtaken w' ⊎ Accepted w')
                (confirm_post entry e t hours answer r w) (confirm_post-Accepted r found status)
                (λ _ w' done. inr done))
      ]

  -- After the HCM system has accepted a deduction, the transaction either raises and changes no
  -- table; or the request no longer waits, and only the entry is marked as failed; or the request
  -- becomes approved with the system's reference, its hold is converted, its entry is completed, and
  -- the hours move from the projection of its key, where there is one, to the used balance.
  pub settle_post-IsAtomic :
      IsAtomic w.db
        (λ _ w'. Overtaken w' ⊎ Accepted w')
        (run_in_transaction (settle_post entry e t hours answer) w)
  settle_post-IsAtomic =
      transaction (λ _ w'. Overtaken w' ⊎ Accepted w') (settle_post entry e t hours answer) w
        settle_post-Returns
