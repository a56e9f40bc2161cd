-- ===== src/Hold/Repository.antt =====
-- src/hold/hold.repository.ts
use readyon.Base.{
  ◌+◌, Bool, not, ◌&&◌, ◌||◌, Option, none, some, List, [], ◌∷◌, ◌++◌, ℤ, pos, ltb_ℤ, ◌==◌, ⊤,
  find_first, any, update_where, select_where,
}
use readyon.Types.{Text, BalanceHoldRow, HoldStatus, active, released, converted, is_active}
use readyon.Errors.{sqlite_error, type_error, balance_holds}
use readyon.Store.{Db, M, gets, ask, or_raise, raise_if, modify, generate_id, ◌>>=◌, ◌>>◌, now_iso}
use readyon.Balance.Repository.{is_held}

unfoldable pub find_by_id : Text → Db → Option BalanceHoldRow
find_by_id id db = find_first (λ h. h.id == id) db.holds

unfoldable pub find_by_request_id : Text → Db → Option BalanceHoldRow
find_by_request_id request_id db = find_first (λ h. h.request_id == request_id) db.holds

-- A primary key, one hold for each request, the foreign key, and a positive amount.
unfoldable pub violates : BalanceHoldRow → Db → Bool
violates h db =
    any (λ (g : BalanceHoldRow). g.id == h.id || g.request_id == h.request_id) db.holds
    || (not (any (λ r. r.id == h.request_id) db.requests) || not (ltb_ℤ (pos 0) h.hold_amount))

-- The row that `create` inserts.
abbrev pub new_hold : Text → Text → Text → Text → ℤ → Text → Text → BalanceHoldRow
new_hold request_id employee_id leave_type location hold_amount id now = record {
  id = id;
  request_id = request_id;
  employee_id = employee_id;
  leave_type = leave_type;
  location = some location;
  hold_amount = hold_amount;
  status = active;
  released_at = none;
  version = 1;
  created_at = now;
  updated_at = now;
}

unfoldable pub create : Text → Text → Text → Text → ℤ → M BalanceHoldRow
unfolding generate_id
create request_id employee_id leave_type location hold_amount = do
  id ← generate_id
  now ← ask now_iso
  let h = new_hold request_id employee_id leave_type location hold_amount id now
  raise_if (← gets (violates h)) (sqlite_error balance_holds)
  modify (λ db. record db { holds = db.holds ++ h ∷ [] })
  or_raise (← gets (find_by_id id)) type_error

unfoldable pub find_active_by_employee_and_type : Text → Text → Text → Db → List BalanceHoldRow
find_active_by_employee_and_type employee_id leave_type location db =
    select_where (is_held employee_id leave_type location) db.holds

-- The UPDATE of `release` and `convert`: the active hold of a request ends.
abbrev pub is_active_of : Text → BalanceHoldRow → Bool
is_active_of request_id h = h.request_id == request_id && is_active h.status

abbrev pub end_hold : HoldStatus → Text → BalanceHoldRow → BalanceHoldRow
end_hold status now h = record h {
  status = status;
  released_at = some now;
  version = h.version + 1;
  updated_at = now;
}

unfoldable pub end_holds : HoldStatus → Text → Text → Db → Db
end_holds status request_id now db = record db {
  holds = update_where (is_active_of request_id) (end_hold status now) db.holds;
}

-- Both only log a warning where no hold is active.
unfoldable pub release : Text → M ⊤
release request_id w = modify (end_holds released request_id (now_iso w)) w

unfoldable pub convert : Text → M ⊤
convert request_id w = modify (end_holds converted request_id (now_iso w)) w
