-- ===== src/Outbox/Refund.antt =====
-- The transaction that `OutboxProcessor.sweep` runs after a successful `cancelTimeOff`.
use readyon.Base.{
  ◌≡◌, refl, ◌∙◌, none, some, arith, Option, pos, ◌-ℤ◌, ◌+ℤ◌, int_laws, Bool-cases, Option-cases,
  inl, inr, ◌⊎◌,
}
use readyon.Types.{
  Text, or_default, hq, TimeOffRequestRow, BalanceProjectionRow, IntegrationOutboxRow,
}
use readyon.Store.{World, Returns, IsAtomic, now_iso, run_in_transaction}
use readyon.Store.Returns.{transaction, conclude}
use readyon.Balance.Repository.{
  find_by_employee_and_type, get_effective_available, get_active_holds_total, deduct,
  apply_deduction,
}
use readyon.Balance.Held.{same_projection}
use readyon.Balance.Updates.{
  Replaced, breaks, find-with_projection, update_projection_ok, update_projection_err,
}
use readyon.Outbox.Repository.{mark_completed, complete, update_entry}
use readyon.Outbox.Processor.{settle_cancel, deduct_if_known}
use readyon.Hcm.Port.{HcmCancelTimeOffResponse}
use readyon.Audit

module _ (entry : IntegrationOutboxRow) (e t : Text) (reference : Option Text)
    (answer : HcmCancelTimeOffResponse) (r : TimeOffRequestRow) (w : World) where
  abbrev loc : Text
  loc = or_default r.location hq

  -- The projection of the request's key, which gets its hours back.
  abbrev pub refund : BalanceProjectionRow → BalanceProjectionRow
  refund = deduct (pos 0 -ℤ r.hours_requested) (now_iso w)

  -- The entry is completed, and no request and no hold is touched.
  abbrev pub Settled : World → Type 0
  Settled w' =
      (w'.db.entries ≡ (update_entry entry.id (complete (now_iso w)) w.db).entries)
      × (w'.db.requests ≡ w.db.requests)
      × (w'.db.holds ≡ w.db.holds)

  abbrev pub Refunded : World → Type 0
  Refunded w' =
      Settled w'
      × (((find_by_employee_and_type e t loc w.db ≡ none) × (w'.db.projections ≡ w.db.projections))
          ⊎ ((p : BalanceProjectionRow) × (find_by_employee_and_type e t loc w.db ≡ some p)
              × Replaced e t loc p.version refund w.db w'.db))

  settle_cancel-Refunded : Returns (λ _. Refunded) (settle_cancel entry e t reference answer r w)
  unfolding settle_cancel deduct_if_known apply_deduction mark_completed Audit.log
  settle_cancel-Refunded = elim (Option-cases (find_by_employee_and_type e t loc w.db)) [
    | inl unknown ↦ rw (unknown, Returns) ((refl, refl, refl), inl (unknown, refl))
    | inr (p, known) ↦ elim (Bool-cases (breaks e t loc p.version refund w.db)) [
      | inl bad ↦ rw (known, update_projection_err e t loc p.version refund w bad, Returns) tt
      | inr fine ↦
          rw (known, update_projection_ok e t loc refund (λ q. refl) w p known fine, Returns)
            ((refl, refl, refl), inr (p, known, (fine, refl)))
    ]
  ]

  -- After the HCM system has taken a deduction back, the transaction either raises and changes no
  -- table, or it completes the entry and gives the request's hours back to the projection of its
  -- key, where there is one; no request and no hold is touched.
  pub settle_cancel-IsAtomic :
      IsAtomic w.db
        (λ _. Refunded)
        (run_in_transaction (settle_cancel entry e t reference answer r) w)
  settle_cancel-IsAtomic =
      transaction (λ _. Refunded) (settle_cancel entry e t reference answer r) w
        settle_cancel-Refunded

  Refunded-available :
      (p : BalanceProjectionRow) (w' : World)
      → find_by_employee_and_type e t loc w.db ≡ some p
      → Refunded w'
      → get_effective_available e t loc none w'.db
        ≡ get_effective_available e t loc none w.db +ℤ r.hours_requested
  unfolding get_effective_available get_active_holds_total
  Refunded-available p w' known (_, inl (unknown, _)) = absurd (ground arith)
  Refunded-available p w' known (settled, inr (q, known', changed)) =
      let found : find_by_employee_and_type e t loc w'.db ≡ some (refund q) =
        same_projection e t loc _ w'.db changed.1
        ∙ find-with_projection e t loc refund (λ y. refl) w q known' in
      rw (found, known', settled.2) (omega int_laws)

  -- When the refund is made and the key has a projection, what is available of it goes up by the
  -- hours of the request.
  pub settle_cancel-available :
      (p : BalanceProjectionRow)
      → find_by_employee_and_type e t loc w.db ≡ some p
      → Returns
          (λ _ w'.
            get_effective_available e t loc none w'.db
            ≡ get_effective_available e t loc none w.db +ℤ r.hours_requested)
          (run_in_transaction (settle_cancel entry e t reference answer r) w)
  settle_cancel-available p known =
      conclude w.db (λ _. Refunded) _
        (run_in_transaction (settle_cancel entry e t reference answer r) w) settle_cancel-IsAtomic
        (λ _ w' done. Refunded-available p w' known done)
