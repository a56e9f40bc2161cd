-- ===== src/Integration/Update.antt =====
-- `IntegrationController.singleBalanceUpdate`: its transaction.
use readyon.Base.{
  ◌≡◌, refl, ◌∙◌, ◌||◌, not, none, some, ◌<◌, leb, arith, Option, Bool-cases, Option-cases, inl,
  inr, any, ⊤,
}
use readyon.Types.{Text, or_default, hq, BalanceProjectionRow}
use readyon.Store.{Db, World, M, ok, Returns, IsAtomic, now_iso, run_in_transaction}
use readyon.Store.Returns.{transaction}
use readyon.Balance.Repository as Balances
use readyon.Balance.Repository.{
  find_by_employee_and_type, get_effective_available, get_active_holds_total, new_projection,
  overwrite, clashes, is_projection_row, update_from_hcm,
}
use readyon.Balance.Held.{same_projection, available-of_total}
use readyon.Balance.Updates.{
  with_projection, Replaced, Inserted, breaks, update_projection_ok, update_projection_err,
  find-with_projection,
}
use readyon.Integration.{
  SingleBalanceUpdateDto, BalanceUpdated, write_balance, update_balance_tx, total_of, is_some,
}
use readyon.Audit

total_same :
    (e t l : Text) (db db' : Db)
    → db'.holds ≡ db.holds
    → get_active_holds_total e t l none db' ≡ get_active_holds_total e t l none db
unfolding get_active_holds_total
total_same e t l db db' held = rw held refl

-- What is available depends on the projections and the holds alone.
effective_same :
    (e t l : Text) (db db' : Db)
    → db'.projections ≡ db.projections
    → db'.holds ≡ db.holds
    → get_effective_available e t l none db' ≡ get_effective_available e t l none db
effective_same e t l db db' same held =
    available-of_total e t l none none db db' same (total_same e t l db db' held)

module _ (sync_mock : M ⊤) (dto : SingleBalanceUpdateDto) (c : Option Text) (w : World) where
  abbrev loc : Text
  loc = or_default dto.location hq

  abbrev pub known : Option BalanceProjectionRow
  known = find_by_employee_and_type dto.employee_id dto.leave_type loc w.db

  abbrev pub inserted : BalanceProjectionRow
  inserted =
      new_projection dto.employee_id dto.leave_type loc dto.total_balance dto.used_balance
        dto.hcm_version (w.uuid w.drawn) (now_iso w)

  abbrev pub replace : BalanceProjectionRow → BalanceProjectionRow
  replace = overwrite dto.total_balance dto.used_balance dto.hcm_version (now_iso w)

  -- The projection is new, or was older and is replaced.
  abbrev pub Written : Option BalanceProjectionRow → World → Type 0
  Written none w' = Inserted inserted w.db w'.db
  Written (some p) w' =
      (p.hcm_version < dto.hcm_version)
      × (find_by_employee_and_type dto.employee_id dto.leave_type loc w'.db ≡ some (replace p))
      × Replaced dto.employee_id dto.leave_type loc p.version replace w.db w'.db

  abbrev pub Accepted : BalanceUpdated → World → Type 0
  Accepted r w' =
      Written known w'
      × (w'.db.requests ≡ w.db.requests)
      × (w'.db.holds ≡ w.db.holds)
      × (w'.db.entries ≡ w.db.entries)
      × (r.was_known ≡ is_some known)
      × (r.previous_balance ≡ total_of known)
      × (r.effective_available
          ≡ get_effective_available dto.employee_id dto.leave_type loc none w'.db)

  module _ (silent : (v : World) → sync_mock v ≡ ok tt v) where
    update_balance_tx-Accepted : Returns Accepted (update_balance_tx sync_mock dto c w)
    unfolding update_balance_tx write_balance update_from_hcm Balances.create Audit.log
    update_balance_tx-Accepted = elim (Option-cases known) [
      | inl absent ↦
          elim (Bool-cases
            (any (clashes inserted) w.db.projections || not (is_projection_row inserted))) [
              | inl bad ↦ rw (absent, bad, Returns) tt
              | inr fine ↦
                  rw (absent, fine, silent, Returns)
                    (
                      rw absent (ground arith, refl),
                      refl,
                      refl,
                      refl,
                      rw absent refl,
                      rw absent refl,
                      effective_same dto.employee_id dto.leave_type loc _ _ refl refl,
                    )
            ]
      | inr (p, found) ↦ elim (Bool-cases (leb dto.hcm_version p.hcm_version)) [
        | inl stale ↦ rw (found, stale, Returns) tt
        | inr newer ↦
            elim (Bool-cases (breaks dto.employee_id dto.leave_type loc p.version replace w.db)) [
              | inl bad ↦
                  rw
                    (
                      found,
                      newer,
                      update_projection_err dto.employee_id dto.leave_type loc p.version replace w
                          bad,
                      Returns,
                    )
                    tt
              | inr fine ↦
                  rw
                    (
                      found,
                      newer,
                      update_projection_ok dto.employee_id dto.leave_type loc replace (λ q. refl) w
                          p found fine,
                      silent,
                      Returns,
                    )
                    (
                      rw found (
                        ground arith,
                        same_projection dto.employee_id dto.leave_type loc
                              (with_projection dto.employee_id dto.leave_type loc p.version replace
                                w.db)
                              _ refl
                            ∙ find-with_projection dto.employee_id dto.leave_type loc replace
                                (λ q. refl) w p found,
                        (fine, refl),
                      ),
                      refl,
                      refl,
                      refl,
                      rw found refl,
                      rw found refl,
                      effective_same dto.employee_id dto.leave_type loc _ _ refl refl,
                    )
            ]
      ]
    ]

    -- The transaction of a single balance update either raises and changes no table, or it creates
    -- the projection, or the projection was older and gets the sent balances; no request, hold or
    -- outbox entry is touched, and the answer has the balance before and what is available after.
    -- The mock adapter's memory is not part of the tables.
    pub update_balance-IsAtomic :
        IsAtomic w.db Accepted (run_in_transaction (update_balance_tx sync_mock dto c) w)
    update_balance-IsAtomic =
        transaction Accepted (update_balance_tx sync_mock dto c) w update_balance_tx-Accepted
