-- ===== src/Outbox/Settlement/Available.antt =====
-- What is available once `OutboxProcessor.sweep` has confirmed a deduction.
use mathlib.Core.Path.{subst}
use readyon.Base.{◌≡◌, refl, ◌∙◌, true, none, some, arith, ℤ, ◌-ℤ◌, int_laws, inl, inr, ◌⊎◌}
use readyon.Types.{
  Text, or_default, hq, is_truthy, TimeOffRequestRow, BalanceProjectionRow, IntegrationOutboxRow,
  approved_pending_hcm, converted,
}
use readyon.Store.{World, Returns, now_iso, run_in_transaction}
use readyon.Store.Returns.{conclude}
use readyon.Balance.Repository.{find_by_employee_and_type, get_effective_available, deduct}
use readyon.Balance.Held.{total-end_holds, same_projection}
use readyon.Balance.Updates.{find-with_projection}
use readyon.Request.Repository.{find_by_id}
use readyon.Outbox.Processor.{settle_post}
use readyon.Hcm.Port.{HcmPostTimeOffResponse}
use readyon.Outbox.Settlement.{Deducted, Overtaken, Accepted, settle_post-IsAtomic}

module _ (entry : IntegrationOutboxRow) (e t : Text) (hours : ℤ) (answer : HcmPostTimeOffResponse)
    (w : World) where
  Deducted-available :
      (r : TimeOffRequestRow) (p : BalanceProjectionRow) (w' : World)
      → is_truthy entry.request_id ≡ true
      → find_by_employee_and_type e t (or_default r.location hq) w.db ≡ some p
      → Deducted entry e t hours answer w r p w'
      → get_effective_available e t (or_default r.location hq) none w'.db
        ≡ get_effective_available e t (or_default r.location hq) (some entry.request_id) w.db
          -ℤ hours
  unfolding get_effective_available
  Deducted-available r p w' given known done =
      let l = or_default r.location hq in
      let found' : find_by_employee_and_type e t l w'.db ≡ some (deduct hours (now_iso w) p) =
        same_projection e t l _ w'.db (done.1).1
        ∙ find-with_projection e t l (deduct hours (now_iso w)) (λ q. refl) w p known in
      let held =
        total-end_holds e t l converted entry.request_id (now_iso w) w.db w'.db refl given
          (done.0).1 in
      rw (found', known, held) (omega int_laws)

  available_after :
      (r : TimeOffRequestRow) (p : BalanceProjectionRow) (w' : World)
      → find_by_id entry.request_id w.db ≡ some r
      → r.status ≡ approved_pending_hcm
      → find_by_employee_and_type e t (or_default r.location hq) w.db ≡ some p
      → is_truthy entry.request_id ≡ true
      → Overtaken entry e t hours answer w w' ⊎ Accepted entry e t hours answer w w'
      → get_effective_available e t (or_default r.location hq) none w'.db
        ≡ get_effective_available e t (or_default r.location hq) (some entry.request_id) w.db
          -ℤ hours
  available_after r p w' found waits known given (inl (gone, _)) = absurd (ground arith)
  available_after r p w' found waits known given (inr (q, found', _, _, done, inl (unknown, _))) =
      let same : q ≡ r = cc in absurd (ground arith)
  available_after r p w' found waits known given
        (inr (q, found', _, _, done, inr (p', known', taken))) =
      let same : q ≡ r = cc in
      subst
        (λ z.
          get_effective_available e t (or_default z.location hq) none w'.db
          ≡ get_effective_available e t (or_default z.location hq) (some entry.request_id) w.db
            -ℤ hours)
        same (Deducted-available q p' w' given known' (done, taken))

  -- When the transaction confirms the deduction of a request of this key, what is available is what
  -- was available without the request's own hold, less the hours deducted.
  pub settle_post-available :
      (r : TimeOffRequestRow) (p : BalanceProjectionRow)
      → find_by_id entry.request_id w.db ≡ some r
      → r.status ≡ approved_pending_hcm
      → find_by_employee_and_type e t (or_default r.location hq) w.db ≡ some p
      → is_truthy entry.request_id ≡ true
      → Returns
          (λ _ w'.
            get_effective_available e t (or_default r.location hq) none w'.db
            ≡ get_effective_available e t (or_default r.location hq) (some entry.request_id) w.db
              -ℤ hours)
          (run_in_transaction (settle_post entry e t hours answer) w)
  settle_post-available r p found waits known given =
      conclude w.db
        (λ _ w'. Overtaken entry e t hours answer w w' ⊎ Accepted entry e t hours answer w w') _
        (run_in_transaction (settle_post entry e t hours answer) w)
        (settle_post-IsAtomic entry e t hours answer w)
        (λ _ w' how. available_after r p w' found waits known given how)
