-- ===== src/Reconciliation/Results.antt =====
-- What `ReconciliationService.reconcileOne` does about a drift.
use readyon.Base.{
  ◌≡◌, refl, ◌∙◌, true, none, some, ◌==◌, ℕ, ◌≤◌, ℤ, pos, ◌-ℤ◌, ltb_ℤ, leb_ℤ, ltb, ◌≤ℤ◌, arith,
  Bool-cases, inl, inr, if◌then◌else◌,
}
use readyon.Types.{Text, BalanceProjectionRow}
use readyon.Store.{World, Db, Outcome, ok, err, Returns, IsAtomic, now_iso, run_in_transaction}
use readyon.Store.Returns.{transaction, followed_by}
use readyon.Balance.Repository.{
  find_by_employee_and_type, overwrite, update_from_hcm, get_active_holds_total,
}
use readyon.Balance.Held.{same_projection}
use readyon.Balance.Updates.{
  with_projection, Replaced, breaks, update_projection_ok, update_projection_err,
  find-with_projection,
}
use readyon.Hold.Repository.{find_active_by_employee_and_type}
use readyon.Request.Repository.{get_pending_deduction_hours}
use readyon.Hcm.Port.{HcmGetBalanceResponse}
use readyon.Batch.Flags.{AllFlagged, AllFlagged-same, OnlyFlags, FlagsAll}
use readyon.Reconciliation.Marks.{flag_active_holds-FlagsAll}
use readyon.Reconciliation.{
  ReconcileResult, in_step, repaired, flagged, effective_drift, repair, repair_row, flag_drift,
  renew, reconcile_local,
}
use readyon.Audit

module _ {A B : Type 0} where
  -- A transaction whose result is replaced.
  answered :
      (before : Db) (P : A → World → Type 0) (R : B → World → Type 0) (b : B) (r : Outcome A)
      → IsAtomic before P r
      → ((a : A) (w : World) → P a w → R b w)
      → IsAtomic before R (elim r as (λ _. Outcome B) [ ok a w ↦ ok b w | err e w ↦ err e w ])
  answered before P R b (ok a w) h next = next a w h
  answered before P R b (err e w) h next = h

module _ (e t l : Text) (b : HcmGetBalanceResponse) (threshold : ℤ) (p : BalanceProjectionRow)
    (w : World) where
  abbrev pub drift : ℕ
  drift = effective_drift b p (get_pending_deduction_hours e t w.db)

  -- The projection with the balances of the HCM system.
  abbrev pub corrected : BalanceProjectionRow → BalanceProjectionRow
  corrected = overwrite b.total_balance b.used_balance b.hcm_version (now_iso w)

  abbrev pub left_over : ℤ
  left_over = b.total_balance -ℤ b.used_balance -ℤ get_active_holds_total e t l none w.db

  abbrev pub Corrected : World → Type 0
  Corrected w' =
      (find_by_employee_and_type e t l w'.db ≡ some (corrected p))
      × (w'.db.holds ≡ w.db.holds)
      × (w'.db.entries ≡ w.db.entries)
      × Replaced e t l p.version corrected w.db w'.db

  -- What each result says.
  abbrev pub Reconciled : ReconcileResult → World → Type 0
  Reconciled in_step w' =
      (drift ≡ 0)
      × (if ltb p.hcm_version b.hcm_version
          then Corrected w' × (w'.db.requests ≡ w.db.requests)
          else w'.db ≡ w.db)
  Reconciled repaired w' =
      (1 ≤ drift)
      × (pos drift ≤ℤ threshold)
      × Corrected w'
      × (if ltb_ℤ left_over (pos 0)
          then AllFlagged (find_active_by_employee_and_type e t l w.db) w'.db × OnlyFlags w w'
          else w'.db.requests ≡ w.db.requests)
  Reconciled flagged w' =
      (1 ≤ drift)
      × (ltb_ℤ threshold (pos drift) ≡ true)
      × (w'.db.projections ≡ w.db.projections)
      × (w'.db.holds ≡ w.db.holds)
      × (w'.db.entries ≡ w.db.entries)
      × AllFlagged (find_active_by_employee_and_type e t l w.db) w'.db
      × OnlyFlags w w'

  module _ (found : find_by_employee_and_type e t l w.db ≡ some p) where
    abbrev corrected_world : World
    corrected_world = record w { db = with_projection e t l p.version corrected w.db }

    now_corrected :
        (db : Db)
        → db.projections ≡ corrected_world.db.projections
        → find_by_employee_and_type e t l db ≡ some (corrected p)
    now_corrected db same =
        same_projection e t l corrected_world.db db same
        ∙ find-with_projection e t l corrected (λ q. refl) w p found

    renew-Corrected :
        Returns (λ _ w'. Corrected w' × (w'.db.requests ≡ w.db.requests)) (renew e t l b p w)
    unfolding renew update_from_hcm
    renew-Corrected = elim (Bool-cases (breaks e t l p.version corrected w.db)) [
      | inl bad ↦ rw (update_projection_err e t l p.version corrected w bad, Returns) tt
      | inr fine ↦
          rw (update_projection_ok e t l corrected (λ q. refl) w p found fine, Returns)
            ((now_corrected corrected_world.db refl, refl, refl, (fine, refl)), refl)
    ]

    -- The tables after a repair.
    abbrev Repaired : World → Type 0
    Repaired w' =
        Corrected w'
        × (if ltb_ℤ left_over (pos 0)
            then AllFlagged (find_active_by_employee_and_type e t l w.db) w'.db × OnlyFlags w w'
            else w'.db.requests ≡ w.db.requests)

    repair-Repaired : (n : ℕ) (pending : ℤ) → Returns (λ _. Repaired) (repair e t l b n pending w)
    unfolding repair repair_row update_from_hcm get_active_holds_total
        find_active_by_employee_and_type Audit.log
    repair-Repaired n pending = elim (Bool-cases (breaks e t l p.version corrected w.db)) [
      | inl bad ↦ rw (found, update_projection_err e t l p.version corrected w bad, Returns) tt
      | inr fine ↦
          let update = update_projection_ok e t l corrected (λ q. refl) w p found fine in
          elim (Bool-cases (ltb_ℤ left_over (pos 0))) [
            | inl over ↦
                rw (found, update, over, Returns)
                  (followed_by
                    (λ _. FlagsAll (find_active_by_employee_and_type e t l w.db) corrected_world)
                    (λ _. Repaired) _ _ (flag_active_holds-FlagsAll e t l corrected_world)
                    (λ _ w2 (framed, all, only). (
                      (now_corrected _ framed.0, framed.1, framed.2, (fine, framed.0)),
                      rw over (AllFlagged-same _ w2.db _ refl all, only),
                    )))
            | inr covered ↦
                rw (found, update, covered, Returns)
                  ((now_corrected _ refl, refl, refl, (fine, refl)), rw covered refl)
          ]
    ]

    -- The tables after a drift was left to a person.
    abbrev Left : World → Type 0
    Left w' =
        (w'.db.projections ≡ w.db.projections)
        × (w'.db.holds ≡ w.db.holds)
        × (w'.db.entries ≡ w.db.entries)
        × AllFlagged (find_active_by_employee_and_type e t l w.db) w'.db
        × OnlyFlags w w'

    flag_drift-Left :
        (n : ℕ) (pending : ℤ) → Returns (λ _. Left) (flag_drift e t l b n threshold p pending w)
    unfolding flag_drift Audit.log
    flag_drift-Left n pending =
        followed_by (λ _. FlagsAll (find_active_by_employee_and_type e t l w.db) w) (λ _. Left) _ _
          (flag_active_holds-FlagsAll e t l w)
          (λ _ w2 (framed, all, only).
            (framed.0, framed.1, framed.2, AllFlagged-same _ w2.db _ refl all, only))

    pub reconcile_local-IsAtomic : IsAtomic w.db Reconciled (reconcile_local e t l b threshold p w)
    unfolding reconcile_local
    reconcile_local-IsAtomic =
        let pending = get_pending_deduction_hours e t w.db in
        elim (Bool-cases (drift == 0)) [
          | inl level ↦ elim (Bool-cases (ltb p.hcm_version b.hcm_version)) [
            | inl newer ↦
                rw (level, newer, IsAtomic)
                  (answered w.db (λ _ w'. Corrected w' × (w'.db.requests ≡ w.db.requests))
                    Reconciled in_step (run_in_transaction (renew e t l b p) w)
                    (transaction _ (renew e t l b p) w renew-Corrected)
                    (λ _ w' done. (ground arith, rw newer done)))
            | inr older ↦ rw (level, older, IsAtomic) (ground arith, rw older refl)
          ]
          | inr drifted ↦ elim (Bool-cases (leb_ℤ (pos drift) threshold)) [
            | inl small ↦
                rw (drifted, small, IsAtomic)
                  (answered w.db (λ _. Repaired) Reconciled repaired
                    (run_in_transaction (repair e t l b drift pending) w)
                    (transaction (λ _. Repaired) (repair e t l b drift pending) w
                      (repair-Repaired drift pending))
                    (λ _ w' (done, rest). (ground arith, ground arith, done, rest)))
            | inr large ↦
                rw (drifted, large, IsAtomic)
                  (answered w.db (λ _. Left) Reconciled flagged
                    (run_in_transaction (flag_drift e t l b drift threshold p pending) w)
                    (transaction (λ _. Left) (flag_drift e t l b drift threshold p pending) w
                      (flag_drift-Left drift pending))
                    (λ _ w' (a, h, o, all, only). (ground arith, ground arith, a, h, o, all, only)))
          ]
        ]
