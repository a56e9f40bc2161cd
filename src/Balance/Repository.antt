-- ===== src/Balance/Repository.antt =====
-- src/balance/balance.repository.ts
use readyon.Base.{
  List, leb, ltb, order_by, select_where, take, ℕ, ◌+◌, Bool, true, not, ◌&&◌, ◌||◌, Option, none,
  some, [], ◌∷◌, ◌++◌, ℤ, pos, ◌+ℤ◌, ◌-ℤ◌, leb_ℤ, ◌==◌, ⊤, if◌then◌else◌, holds_value, find_first,
  count_where, any, update_where, sum_where,
}
use readyon.Types.{Text, is_truthy, BalanceProjectionRow, BalanceHoldRow, is_active, triple_of}
use readyon.Errors.{version_conflict_exception, sqlite_error, balance_projections}
use readyon.Store.{Db, M, gets, ask, raise_if, modify, generate_id, ◌>>=◌, ◌>>◌, now_iso}

-- `employee_id = ? AND leave_type = ? AND location = ?`
abbrev pub is_projection : Text → Text → Text → BalanceProjectionRow → Bool
is_projection employee_id leave_type location p =
    p.employee_id == employee_id && (p.leave_type == leave_type && holds_value p.location location)

unfoldable pub find_by_employee_and_type : Text → Text → Text → Db → Option BalanceProjectionRow
find_by_employee_and_type employee_id leave_type location db =
    find_first (is_projection employee_id leave_type location) db.projections

unfoldable pub find_by_employee : Text → Db → List BalanceProjectionRow
find_by_employee employee_id db =
    order_by (λ (a b : BalanceProjectionRow). leb a.leave_type b.leave_type)
      (select_where (λ (p : BalanceProjectionRow). p.employee_id == employee_id) db.projections)

abbrev is_after : Option Text → BalanceProjectionRow → Bool
is_after none p = true
is_after (some after_employee_id) p =
    if is_truthy after_employee_id then ltb after_employee_id p.employee_id else true

unfoldable pub find_all_projections : Option Text → ℕ → Db → List BalanceProjectionRow
find_all_projections after_employee_id limit db = take limit (
    order_by (λ (a b : BalanceProjectionRow). leb a.employee_id b.employee_id)
      (select_where (is_after after_employee_id) db.projections))

-- `request_id != ?`, a condition only for an identifier that is given.
abbrev pub is_kept : Option Text → Text → Bool
is_kept none r = true
is_kept (some excluded) r = if is_truthy excluded then not (r == excluded) else true

abbrev pub is_held : Text → Text → Text → BalanceHoldRow → Bool
is_held employee_id leave_type location h =
    h.employee_id == employee_id
    && (h.leave_type == leave_type && (holds_value h.location location && is_active h.status))

unfoldable pub get_active_holds_total : Text → Text → Text → Option Text → Db → ℤ
get_active_holds_total employee_id leave_type location exclude_request_id db =
    sum_where
      (λ h. is_held employee_id leave_type location h && is_kept exclude_request_id h.request_id)
      (λ h. h.hold_amount) db.holds

abbrev pub available_of : ℤ → Option BalanceProjectionRow → ℤ
available_of held none = pos 0
available_of held (some p) = p.projected_available -ℤ held

unfoldable pub get_effective_available : Text → Text → Text → Option Text → Db → ℤ
get_effective_available employee_id leave_type location exclude_request_id db =
    available_of (get_active_holds_total employee_id leave_type location exclude_request_id db)
      (find_by_employee_and_type employee_id leave_type location db)

-- The CHECK constraints of balance_projections.
abbrev pub is_projection_row : BalanceProjectionRow → Bool
is_projection_row p =
    leb_ℤ (pos 0) p.total_balance
    && (leb_ℤ (pos 0) p.used_balance && leb_ℤ (pos 0) p.projected_available)

-- Its keys: `id`, and `uq_employee_leave`, which leaves the location out.
abbrev pub clashes : BalanceProjectionRow → BalanceProjectionRow → Bool
clashes p q = q.id == p.id || (q.employee_id == p.employee_id && q.leave_type == p.leave_type)

abbrev pub insert_projection : BalanceProjectionRow → M ⊤
insert_projection p = do
  taken ← gets (λ db. any (clashes p) db.projections)
  raise_if (taken || not (is_projection_row p)) (sqlite_error balance_projections)
  modify (λ db. record db { projections = db.projections ++ p ∷ [] })

-- The row that `create` inserts.
abbrev pub new_projection : Text → Text → Text → ℤ → ℤ → Text → Text → Text → BalanceProjectionRow
new_projection employee_id leave_type location total_balance used_balance hcm_version id now =
    record {
      id = id;
      employee_id = employee_id;
      leave_type = leave_type;
      location = some location;
      total_balance = total_balance;
      used_balance = used_balance;
      projected_available = total_balance -ℤ used_balance;
      hcm_version = hcm_version;
      version = 1;
      created_at = now;
      updated_at = now;
    }

unfoldable pub create : Text → Text → Text → ℤ → ℤ → Text → M (Option BalanceProjectionRow)
unfolding generate_id
create employee_id leave_type location total_balance used_balance hcm_version = do
  id ← generate_id
  now ← ask now_iso
  insert_projection
      (new_projection employee_id leave_type location total_balance used_balance hcm_version id now)
  gets (find_by_employee_and_type employee_id leave_type location)

-- An UPDATE of the projection at `expected_version`: its constraints, its effect and its count.
unfoldable pub update_projection :
    Text
    → Text
    → Text
    → ℕ
    → (BalanceProjectionRow → BalanceProjectionRow)
    → M (Option BalanceProjectionRow)
update_projection employee_id leave_type location expected_version f = do
  let hit = λ (p : BalanceProjectionRow).
      is_projection employee_id leave_type location p && p.version == expected_version
  broken ← gets (λ db. any (λ p. hit p && not (is_projection_row (f p))) db.projections)
  raise_if broken (sqlite_error balance_projections)
  changes ← gets (λ db. count_where hit db.projections)
  modify (λ db. record db { projections = update_where hit f db.projections })
  raise_if (changes == 0)
      (version_conflict_exception balance_projections (triple_of employee_id leave_type location))
  gets (find_by_employee_and_type employee_id leave_type location)

abbrev pub deduct : ℤ → Text → BalanceProjectionRow → BalanceProjectionRow
deduct hours now p = record p {
  used_balance = p.used_balance +ℤ hours;
  projected_available = p.projected_available -ℤ hours;
  version = p.version + 1;
  updated_at = now;
}

unfoldable pub apply_deduction : Text → Text → Text → ℤ → ℕ → M (Option BalanceProjectionRow)
apply_deduction employee_id leave_type location hours expected_version = do
  now ← ask now_iso
  update_projection employee_id leave_type location expected_version (deduct hours now)

abbrev pub overwrite : ℤ → ℤ → Text → Text → BalanceProjectionRow → BalanceProjectionRow
overwrite total_balance used_balance hcm_version now p = record p {
  total_balance = total_balance;
  used_balance = used_balance;
  projected_available = total_balance -ℤ used_balance;
  hcm_version = hcm_version;
  version = p.version + 1;
  updated_at = now;
}

unfoldable pub update_from_hcm :
    Text → Text → Text → ℤ → ℤ → Text → ℕ → M (Option BalanceProjectionRow)
update_from_hcm employee_id leave_type location total_balance used_balance hcm_version
      expected_version =
    do
      now ← ask now_iso
      update_projection employee_id leave_type location expected_version
          (overwrite total_balance used_balance hcm_version now)
