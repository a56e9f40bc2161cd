-- ===== src/System/Effects/Operations.antt =====
-- The effects of the transactions with several results.
use readyon.Base.{
  ◌≡◌, refl, arith, ap, none, some, Option, ℤ, pos, ltb_ℤ, ltb, ⊤, Bool-cases, inl, inr, ◌⊎◌, ◌-ℤ◌,
}
use readyon.Types.{
  Text, TimeOffRequestRow, BalanceProjectionRow, IntegrationOutboxRow, approved_pending_hcm,
  approved, failed_hcm, released, converted, or_default, hq,
}
use readyon.Store.{World, Db, M, now_iso}
use readyon.Request.Repository.{find_by_id, no_extra}
use readyon.Outbox.Processor.{in_status}
use readyon.Outbox.Settlement.{Overtaken, Accepted, with_reference}
use readyon.Outbox.Refund.{Refunded}
use readyon.Outbox.Failures.{Handled, GivenUp}
use readyon.Hcm.Port.{HcmPostTimeOffResponse, HcmGetBalanceResponse, HcmCancelTimeOffResponse}
use readyon.Batch.Sync.{BatchSyncItem, ItemResult, created, updated, skipped_stale, item_failed}
use readyon.Batch.Items.{Applied, new_effective}
use readyon.Integration.{SingleBalanceUpdateDto}
use readyon.Integration.Update as Single
use readyon.Reconciliation.{ReconcileResult, in_step, repaired, flagged}
use readyon.Reconciliation.Results.{Reconciled, left_over}
use readyon.Balance.Repository.{find_by_employee_and_type, deduct}
use readyon.Balance.Updates.{Replaced}
use readyon.System.Holds.{is_holding}
use readyon.System.Effects.{
  OnRequests, nothing, closes, flags, OnRows, no_write, deducts, overwrites, inserts, Effect,
  no_effect,
}

-- `in_status` gives the request that was found.
in_status_found :
    (o : Option TimeOffRequestRow) (r : TimeOffRequestRow)
    → in_status approved_pending_hcm o ≡ some r
    → o ≡ some r
in_status_found none r h = ground arith
in_status_found (some q) r h = ground arith

module _ (w w' : World) where
  pub confirmed :
      (entry : IntegrationOutboxRow) (e t : Text) (hours : ℤ) (answer : HcmPostTimeOffResponse)
      → Overtaken entry e t hours answer w w' ⊎ Accepted entry e t hours answer w w'
      → Effect w w'.db
  unfolding is_holding
  confirmed entry e t hours answer (inl (gone, same)) = (
    nothing (ap (λ (d : Db). d.requests) same) (ap (λ (d : Db). d.holds) same),
    no_write (ap (λ (d : Db). d.projections) same),
  )
  confirmed entry e t hours answer (inr (r, found, waits, row, (rs, hs, es), how)) = (
    closes entry.request_id approved converted r.version (with_reference entry e t hours answer w) r
        found refl refl refl rs hs,
    charged how,
  )
    where
      charged :
          ((find_by_employee_and_type e t (or_default r.location hq) w.db ≡ none)
              × (w'.db.projections ≡ w.db.projections))
            ⊎ ((p : BalanceProjectionRow) × (find_by_employee_and_type e t
                    (or_default r.location hq)
                    w.db
                  ≡ some p)
                × Replaced e t
                    (or_default r.location hq)
                    p.version
                    (deduct hours (now_iso w))
                    w.db
                    w'.db)
          → OnRows w w'.db
      charged (inl (unknown, same)) = no_write same
      charged (inr (p, known, taken)) = deducts e t (or_default r.location hq) p.version hours taken

  pub refunded :
      (entry : IntegrationOutboxRow) (e t : Text) (reference : Option Text)
      (answer : HcmCancelTimeOffResponse) (r : TimeOffRequestRow)
      → Refunded entry e t reference answer r w w'
      → Effect w w'.db
  refunded entry e t reference answer r ((es, rs, hs), inl (unknown, same)) =
      (nothing rs hs, no_write same)
  refunded entry e t reference answer r ((es, rs, hs), inr (p, known, given)) = (
    nothing rs hs,
    deducts e t (or_default r.location hq) p.version (pos 0 -ℤ r.hours_requested) given,
  )

  given_up :
      (outbox_id request_id : Text) (o : Option TimeOffRequestRow)
      → in_status approved_pending_hcm (find_by_id request_id w.db) ≡ o
      → GivenUp outbox_id request_id w o w'
      → OnRequests w w'.db
  unfolding is_holding
  given_up outbox_id request_id none read (rs, hs) = nothing rs hs
  given_up outbox_id request_id (some r) read (rs, hs) =
      closes request_id failed_hcm released r.version no_extra r
        (in_status_found (find_by_id request_id w.db) r read) refl refl refl rs hs

  pub handled : (entry : IntegrationOutboxRow) → Handled entry w w' → Effect w w'.db
  handled entry (error, inl (below, same)) = (
    nothing (ap (λ (d : Db). d.requests) same) (ap (λ (d : Db). d.holds) same),
    no_write (ap (λ (d : Db). d.projections) same),
  )
  handled entry (error, inr (gone, entries, same)) = (
    given_up entry.id entry.request_id
        (in_status approved_pending_hcm (find_by_id entry.request_id w.db)) refl gone,
    no_write same,
  )

  pub synced : (item : BatchSyncItem) (r : ItemResult) → Applied item w r w' → Effect w w'.db
  synced item created (absent, others, rs, made) = (
    nothing rs others.0,
    inserts item.employee_id item.leave_type (or_default item.location hq) item.total_balance
        item.used_balance item.hcm_version (w.uuid w.drawn) made,
  )
  synced item skipped_stale (p, known, stale, same) = no_effect w w'.db same
  synced item updated (p, known, newer, others, written, how) = (
    elim (Bool-cases (ltb_ℤ (new_effective item w) (pos 0))) [
      | inl over ↦ flags others.0 (rw over at how).1
      | inr covered ↦ nothing (rw covered at how) others.0
    ],
    overwrites item.employee_id item.leave_type (or_default item.location hq) p.version
        item.total_balance item.used_balance item.hcm_version written,
  )
  synced item item_failed never = absurd never

  pub reconciled :
      (e t l : Text) (b : HcmGetBalanceResponse) (threshold : ℤ) (p : BalanceProjectionRow)
      (r : ReconcileResult)
      → Reconciled e t l b threshold p w r w'
      → Effect w w'.db
  reconciled e t l b threshold p in_step (level, how) =
      elim (Bool-cases (ltb p.hcm_version b.hcm_version)) [
        | inl newer ↦
            let ((row, hs, es, written), rs) = rw newer at how in
            (
              nothing rs hs,
              overwrites e t l p.version b.total_balance b.used_balance b.hcm_version written,
            )
        | inr older ↦ no_effect w w'.db (rw older at how)
      ]
  reconciled e t l b threshold p repaired (drifted, small, (row, hs, es, written), how) = (
    elim (Bool-cases (ltb_ℤ (left_over e t l b threshold p w) (pos 0))) [
      | inl over ↦ flags hs (rw over at how).1
      | inr covered ↦ nothing (rw covered at how) hs
    ],
    overwrites e t l p.version b.total_balance b.used_balance b.hcm_version written,
  )
  reconciled e t l b threshold p flagged (drifted, large, ps, hs, es, all, only) =
      (flags hs only, no_write ps)

  pub single :
      (sync_mock : M ⊤) (dto : SingleBalanceUpdateDto) (c : Option Text)
      (o : Option BalanceProjectionRow)
      → Single.Written sync_mock dto c w o w'
      → OnRows w w'.db
  single sync_mock dto c none made =
      inserts dto.employee_id dto.leave_type (or_default dto.location hq) dto.total_balance
        dto.used_balance dto.hcm_version (w.uuid w.drawn) made
  single sync_mock dto c (some p) (newer, row, written) =
      overwrites dto.employee_id dto.leave_type (or_default dto.location hq) p.version
        dto.total_balance dto.used_balance dto.hcm_version written
