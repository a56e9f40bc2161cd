-- ===== src/Request/Reads.antt =====
-- The reads of src/request/request.service.ts: one request, and pages of requests.
use readyon.Base.{
  ◌≡◌, refl, false, Bool, Option, none, some, List, [], ◌∷◌, ℕ, zero, suc, ◌+◌, ◌≤◌, ℤ, pos, negsuc,
  arith, ltb, length, take, if◌then◌else◌, Bool-cases, inl, inr, select_where, order_by, leb,
}
use Prim.Native.Nat.{min}
use readyon.Types.{Text, TimeOffRequestRow, HoldStatus, id_of}
use readyon.Errors.{not_found_exception, time_off_requests}
use readyon.Store.{Db, M, pure, gets, or_raise, ◌>>=◌}
use readyon.Hold.Repository.{find_by_request_id}
use readyon.Request.Repository.{
  find_by_id, find_by_employee_id, find_pending_by_manager, Filters, is_listed, awaits,
}
use readyon.Request.Service.{own}

-- `id`, `hold_amount` and `status` of a hold.
pub record HoldView : Type 0 where
  pub id : Text
  pub hold_amount : ℤ
  pub status : HoldStatus

-- The row of the request, and its hold.
unfoldable pub get_request : Text → Text → M (TimeOffRequestRow × Option HoldView)
get_request request_id employee_id = do
  found ← gets (λ db. own employee_id (find_by_id request_id db))
  r ← or_raise found (not_found_exception time_off_requests (id_of request_id))
  hold ← gets (find_by_request_id request_id)
  pure (
    r,
    elim hold [
      | none ↦ none
      | some h ↦ some (record { id = h.id; hold_amount = h.hold_amount; status = h.status })
    ],
  )

-- `Math.min(Math.max(limit, 1), 100)`
unfoldable pub clamp_limit : ℤ → ℕ
clamp_limit (pos zero) = 1
clamp_limit (pos (suc n)) = min (suc n) 100
clamp_limit (negsuc n) = 1

-- A page of requests with its `PaginationMeta`.
pub record Page : Type 0 where
  pub data_rows : List TimeOffRequestRow
  pub next_cursor : Option Text
  pub has_more : Bool
  pub limit : ℕ

-- The identifier of the last row.
pub last_id : List TimeOffRequestRow → Option Text
last_id [] = none
last_id (r ∷ []) = some r.id
last_id (r ∷ s ∷ rs) = last_id (s ∷ rs)

-- The page of rows that were read with a limit of one more.
unfoldable pub page_of : List TimeOffRequestRow → ℕ → Page
unfolding last_id
page_of rows clamped_limit =
    let more = ltb clamped_limit (length rows) in
    let shown = if more then take clamped_limit rows else rows in
    record {
      data_rows = shown;
      next_cursor = if more then last_id shown else none;
      has_more = more;
      limit = clamped_limit;
    }

unfoldable pub list_requests : Text → Filters → Option Text → ℤ → Db → Page
list_requests employee_id filters cursor limit db =
    page_of (find_by_employee_id employee_id filters cursor (clamp_limit limit) db)
      (clamp_limit limit)

unfoldable pub list_pending_approvals : Text → Option Text → ℤ → Db → Page
list_pending_approvals manager_id cursor limit db =
    page_of (find_pending_by_manager manager_id cursor (clamp_limit limit) db) (clamp_limit limit)

-- A page is the beginning of all rows that fit, at most a hundred; it says that there are more
-- exactly if it leaves some out, and only then has a cursor.
abbrev pub IsPageOf : List TimeOffRequestRow → Page → Type 0
IsPageOf all p =
    (1 ≤ p.limit)
    × (p.limit ≤ 100)
    × (p.data_rows ≡ take p.limit all)
    × (p.has_more ≡ ltb p.limit (length all))
    × (p.next_cursor ≡ (if p.has_more then last_id p.data_rows else none))

clamped : (limit : ℤ) → (1 ≤ clamp_limit limit) × (clamp_limit limit ≤ 100)
unfolding clamp_limit
clamped (pos zero) = (omega arith, omega arith)
clamped (pos (suc n)) = (omega arith, omega arith)
clamped (negsuc n) = (omega arith, omega arith)

module _ {ℓ} {A : Type ℓ} where
  take-take : (n : ℕ) (xs : List A) → take n (take (suc n) xs) ≡ take n xs
  take-take zero xs = refl
  take-take (suc n) [] = refl
  take-take (suc n) (x ∷ xs) = rw (take-take n xs) refl

  take_all : (n : ℕ) (xs : List A) → ltb n (length xs) ≡ false → take (suc n) xs ≡ take n xs
  take_all zero [] h = refl
  take_all zero (x ∷ xs) h = ground arith
  take_all (suc n) [] h = refl
  take_all (suc n) (x ∷ xs) h = rw (take_all n xs (ground arith)) refl

  ltb-take : (n : ℕ) (xs : List A) → ltb n (length (take (suc n) xs)) ≡ ltb n (length xs)
  ltb-take zero [] = refl
  ltb-take zero (x ∷ xs) = ground arith
  ltb-take (suc n) [] = ground arith
  ltb-take (suc n) (x ∷ xs) = ground (arith, ltb-take n xs)

plus_one : (n : ℕ) → n + 1 ≡ suc n
plus_one n = omega arith

page_of-IsPageOf :
    (limit : ℤ) (all : List TimeOffRequestRow)
    → IsPageOf all (page_of (take (clamp_limit limit + 1) all) (clamp_limit limit))
unfolding page_of
page_of-IsPageOf limit all =
    let n = clamp_limit limit in
    let (low, high) = clamped limit in
    rw (plus_one n, ltb-take n all)
      (elim (Bool-cases (ltb n (length all))) [
        | inl more ↦ rw (more, take-take n all) (low, high, refl, refl, refl)
        | inr done ↦ rw (done, take_all n all done) (low, high, refl, refl, refl)
      ])

-- A page of an employee's requests is the newest of those that fit the filters and come after the
-- cursor, at most a hundred; it says that there are more exactly if some are left out, and only then
-- has a cursor, which is the identifier of its last row.
pub list_requests-IsPageOf :
    (employee_id : Text) (filters : Filters) (cursor : Option Text) (limit : ℤ) (db : Db)
    → IsPageOf
        (order_by
          (λ a b. leb b.created_at a.created_at)
          (select_where (is_listed employee_id filters cursor) db.requests))
        (list_requests employee_id filters cursor limit db)
unfolding list_requests find_by_employee_id
list_requests-IsPageOf employee_id filters cursor limit db = page_of-IsPageOf limit _

-- A page of the requests that wait for a manager is the oldest of those after the cursor, in the
-- same way.
pub list_pending_approvals-IsPageOf :
    (manager_id : Text) (cursor : Option Text) (limit : ℤ) (db : Db)
    → IsPageOf
        (order_by
          (λ a b. leb a.created_at b.created_at)
          (select_where (awaits manager_id cursor) db.requests))
        (list_pending_approvals manager_id cursor limit db)
unfolding list_pending_approvals find_pending_by_manager
list_pending_approvals-IsPageOf manager_id cursor limit db = page_of-IsPageOf limit _
