-- ===== src/Balance/Held.antt =====
-- How the total of the active holds moves with the holds, for
-- `BalanceRepository.getActiveHoldsTotal`.
use readyon.Base.{
  inl, inr, Option-cases, -ℤ_+ℤ, ◌≢◌, ◌≡◌, ap, find_first, Option, true, false, none, some, [], ◌∷◌,
  ◌++◌, pos, ◌+ℤ◌, if◌then◌else◌, arith, sum_where-append_one, sum_where-update_where, ◌&&◌, ◌-ℤ◌,
  Option,
}
use readyon.Types.{Text, BalanceHoldRow, HoldStatus, is_active, is_truthy}
use readyon.Store.{Db}
use mathlib.Core.Path.{ap₂}
use readyon.Balance.Repository.{
  available_of, is_projection, get_effective_available, find_by_employee_and_type, is_held,
  get_active_holds_total,
}
use readyon.Hold.Repository.{end_holds, end_hold, is_active_of}

-- A new hold adds its amount to the total of its own key.
pub total-insert :
    (e t l : Text) (h : BalanceHoldRow) (db db' : Db)
    → db'.holds ≡ db.holds ++ h ∷ []
    → get_active_holds_total e t l none db'
      ≡ get_active_holds_total e t l none db +ℤ (if is_held e t l h then h.hold_amount else pos 0)
unfolding get_active_holds_total
total-insert e t l h db db' added = rw added (
    ground (
      arith,
      sum_where-append_one (λ (g : BalanceHoldRow). is_held e t l g && true) (λ g. g.hold_amount)
          db.holds h,
    ))

-- Ending the hold of a request leaves the total that leaves this request out.
pub total-end_holds :
    (e t l : Text) (status : HoldStatus) (request_id now : Text) (db db' : Db)
    → is_active status ≡ false
    → is_truthy request_id ≡ true
    → db'.holds ≡ (end_holds status request_id now db).holds
    → get_active_holds_total e t l none db' ≡ get_active_holds_total e t l (some request_id) db
unfolding get_active_holds_total end_holds
total-end_holds e t l status request_id now db db' ended given changed = rw changed (
    sum_where-update_where _ _ (is_active_of request_id) (λ h. h.hold_amount) (end_hold status now)
      (λ h. ground arith) db.holds)

pub same_projection :
    (e t l : Text) (db db' : Db)
    → db'.projections ≡ db.projections
    → find_by_employee_and_type e t l db' ≡ find_by_employee_and_type e t l db
unfolding find_by_employee_and_type
same_projection e t l db db' same = ap (find_first (is_projection e t l)) same

-- What is available depends on the projections and on the total alone.
pub available-of_total :
    (e t l : Text) (x y : Option Text) (db db' : Db)
    → db'.projections ≡ db.projections
    → get_active_holds_total e t l x db' ≡ get_active_holds_total e t l y db
    → get_effective_available e t l x db' ≡ get_effective_available e t l y db
unfolding get_effective_available
available-of_total e t l x y db db' same total =
    ap₂ (λ held found. available_of held found) total (same_projection e t l db db' same)

-- A new hold of a key that has a projection takes its amount from what is available.
pub available-insert :
    (e t l : Text) (h : BalanceHoldRow) (db db' : Db)
    → find_by_employee_and_type e t l db ≢ none
    → db'.projections ≡ db.projections
    → db'.holds ≡ db.holds ++ h ∷ []
    → is_held e t l h ≡ true
    → get_effective_available e t l none db'
      ≡ get_effective_available e t l none db -ℤ h.hold_amount
unfolding get_effective_available
available-insert e t l h db db' known same added hit =
    elim (Option-cases (find_by_employee_and_type e t l db)) [
      | inl missing ↦ absurd (known missing)
      | inr (p, e1) ↦
          rw (same_projection e t l db db' same, e1, total-insert e t l h db db' added, hit)
            (-ℤ_+ℤ p.projected_available _ h.hold_amount)
    ]
