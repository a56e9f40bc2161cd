-- ===== src/Balance/Updates.antt =====
-- `BalanceRepository.applyDeduction` and `updateFromHcm`: the optimistic lock and the constraints of
-- a projection.
use readyon.Base.{
  ◌≡◌, [], ◌∷◌, ◌++◌, true, false, Bool, not, ◌&&◌, ◌==◌, some, arith, ℕ, find_first_holds, any,
  count_where-found, find_first-update_where, update_where,
}
use readyon.Types.{Text, BalanceProjectionRow}
use readyon.Errors.{balance_projections, sqlite_error}
use readyon.Store.{World, Db, ok, err}
use readyon.Balance.Repository.{
  is_projection, is_projection_row, find_by_employee_and_type, update_projection,
}

abbrev pub is_current : Text → Text → Text → ℕ → BalanceProjectionRow → Bool
is_current e t l v p = is_projection e t l p && p.version == v

-- An update that a CHECK constraint refuses.
abbrev pub breaks :
    Text → Text → Text → ℕ → (BalanceProjectionRow → BalanceProjectionRow) → Db → Bool
breaks e t l v f db =
    any (λ p. is_current e t l v p && not (is_projection_row (f p))) db.projections

abbrev pub with_projection :
    Text → Text → Text → ℕ → (BalanceProjectionRow → BalanceProjectionRow) → Db → Db
with_projection e t l v f db = record db {
  projections = update_where (is_current e t l v) f db.projections;
}

-- An update that the constraints let through, and what it leaves.
abbrev pub Replaced :
    Text → Text → Text → ℕ → (BalanceProjectionRow → BalanceProjectionRow) → Db → Db → Type 0
Replaced e t l v f db db' =
    (breaks e t l v f db ≡ false) × (db'.projections ≡ (with_projection e t l v f db).projections)

-- An insertion that the constraints let through.
abbrev pub Inserted : BalanceProjectionRow → Db → Db → Type 0
Inserted p db db' = (is_projection_row p ≡ true) × (db'.projections ≡ db.projections ++ p ∷ [])

module _ (e t l : Text) (f : BalanceProjectionRow → BalanceProjectionRow)
    (keeps : (q : BalanceProjectionRow) → is_projection e t l (f q) ≡ is_projection e t l q)
    (w : World) (p : BalanceProjectionRow)
    (found : find_by_employee_and_type e t l w.db ≡ some p) where
  current : is_current e t l p.version p ≡ true
  current = ground (
    arith,
    find_first_holds (is_projection e t l) w.db.projections p
        (unfold find_by_employee_and_type in found),
  )

  pub find-with_projection :
      find_by_employee_and_type e t l (with_projection e t l p.version f w.db) ≡ some (f p)
  unfolding find_by_employee_and_type
  find-with_projection =
      rw
        (find_first-update_where (is_projection e t l) (is_current e t l p.version) f keeps
          w.db.projections p found)
        (rw current)

  -- At the version of the row that was read the update is made, unless it breaks a constraint.
  pub update_projection_ok :
      breaks e t l p.version f w.db ≡ false
      → update_projection e t l p.version f w
        ≡ ok (some (f p)) (record w { db = with_projection e t l p.version f w.db })
  unfolding update_projection
  update_projection_ok fine =
      rw
        (
          fine,
          count_where-found (is_projection e t l) (is_current e t l p.version) w.db.projections p
              (unfold find_by_employee_and_type in found) current,
        )
        (rw find-with_projection)

pub update_projection_err :
    (e t l : Text) (v : ℕ) (f : BalanceProjectionRow → BalanceProjectionRow) (w : World)
    → breaks e t l v f w.db ≡ true
    → update_projection e t l v f w ≡ err (sqlite_error balance_projections) w
unfolding update_projection
update_projection_err e t l v f w bad = rw bad
