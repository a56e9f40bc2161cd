-- ===== src/Balance/Service.antt =====
-- src/balance/balance.service.ts and src/balance/balance.controller.ts: the balances of an employee.
use readyon.Base.{
  ◌≡◌, refl, true, Option, none, some, List, [], ◌∷◌, ℤ, ◌-ℤ◌, arith, map, if◌then◌else◌,
  find_first_holds, Option-cases, inl, inr,
}
use readyon.Types.{
  Text, or_default, hq, is_truthy, is_given, BalanceProjectionRow, id_of, triple_of,
}
use readyon.Errors.{not_found_exception, balance_projections}
use readyon.Store.{Db, M, pure, raise, gets, ◌>>=◌}
use readyon.Balance.Repository.{
  find_by_employee, find_by_employee_and_type, get_active_holds_total, get_effective_available,
  is_projection,
}

pub record BalanceView : Type 0 where
  pub employee_id : Text
  pub leave_type : Text
  pub location : Text
  pub total_balance : ℤ
  pub used_balance : ℤ
  pub held_balance : ℤ
  pub effective_available : ℤ
  pub hcm_version : Text
  pub last_synced_at : Text

-- The object that both methods return for a row.
unfoldable pub balance_view : Db → BalanceProjectionRow → BalanceView
balance_view db p =
    let loc = or_default p.location hq in
    let held = get_active_holds_total p.employee_id p.leave_type loc none db in
    record {
      employee_id = p.employee_id;
      leave_type = p.leave_type;
      location = loc;
      total_balance = p.total_balance;
      used_balance = p.used_balance;
      held_balance = held;
      effective_available = p.projected_available -ℤ held;
      hcm_version = p.hcm_version;
      last_synced_at = p.updated_at;
    }

unfoldable pub get_balances : Text → Db → List BalanceView
get_balances employee_id db = map (balance_view db) (find_by_employee employee_id db)

unfoldable pub get_balance_by_type : Text → Text → Text → Db → Option BalanceView
get_balance_by_type employee_id leave_type location db =
    elim (find_by_employee_and_type employee_id leave_type location db) [
      | none ↦ none
      | some p ↦ some (balance_view db p)
    ]

one_balance : Text → Text → Text → M (List BalanceView)
one_balance employee_id leave_type loc = do
  found ← gets (get_balance_by_type employee_id leave_type loc)
  elim found [
    | none ↦ raise (not_found_exception balance_projections (triple_of employee_id leave_type loc))
    | some v ↦ pure (v ∷ [])
  ]

all_balances : Text → M (List BalanceView)
all_balances employee_id = do
  found ← gets (get_balances employee_id)
  elim found [
    | [] ↦ raise (not_found_exception balance_projections (id_of employee_id))
    | v ∷ vs ↦ pure (v ∷ vs)
  ]

-- `BalanceController.getBalances`, for the employee of the headers.
unfoldable pub fetch_balances : Text → Option Text → Option Text → M (List BalanceView)
unfolding one_balance all_balances
fetch_balances employee_id leave_type location =
    if is_given leave_type
    then one_balance employee_id (or_default leave_type 0) (or_default location hq)
    else all_balances employee_id

-- For a location that is given, the balance that an employee is shown is just the one that bounds a
-- new request of that key.
pub get_balance_by_type-available :
    (e t l : Text) (db : Db) (v : BalanceView)
    → is_truthy l ≡ true
    → get_balance_by_type e t l db ≡ some v
    → (v.effective_available ≡ get_effective_available e t l none db) × (v.location ≡ l)
unfolding get_balance_by_type get_effective_available balance_view
get_balance_by_type-available e t l db v given shown =
    elim (Option-cases (find_by_employee_and_type e t l db)) [
      | inl gone ↦ absurd (ground arith)
      | inr (p, found) ↦
          let own : is_projection e t l p ≡ true =
            find_first_holds (is_projection e t l) db.projections p
              (unfold find_by_employee_and_type in found) in
          let key : (p.employee_id ≡ e) × (p.leave_type ≡ t) × (or_default p.location hq ≡ l) =
            ground arith in
          let same : some (balance_view db p) ≡ some v = rw (found, get_balance_by_type) at shown in
          let eq : balance_view db p ≡ v = cc in rw (← eq, found, key.0, key.1, key.2) (refl, refl)
    ]
