-- ===== src/System/Rows.antt =====
-- src/balance/balance.repository.ts: what its writes do to the projections' rows.
use readyon.Base.{
  ◌≡◌, refl, Bool, true, false, not, ◌&&◌, ℕ, ℤ, ◌-ℤ◌, leb_ℤ, any, [], arith, int_laws,
  any-append_one, any-update_where-allowed,
}
use readyon.Types.{Text, BalanceProjectionRow}
use readyon.Store.{Db}
use readyon.Balance.Repository.{is_projection_row, deduct, overwrite, new_projection}
use readyon.Balance.Updates.{is_current, Replaced, Inserted}

-- The column that is kept up with each write is the difference of the other two.
abbrev pub is_balanced : BalanceProjectionRow → Bool
is_balanced p =
    leb_ℤ p.projected_available (p.total_balance -ℤ p.used_balance)
    && leb_ℤ (p.total_balance -ℤ p.used_balance) p.projected_available

unfoldable pub is_unsound : BalanceProjectionRow → Bool
is_unsound p = not (is_projection_row p && is_balanced p)

-- Every row is balanced and within the CHECK constraints.
abbrev pub Sound : Db → Type 0
Sound db = any is_unsound db.projections ≡ false

pub Sound-same : (db db' : Db) → db'.projections ≡ db.projections → Sound db → Sound db'
Sound-same db db' same h = rw same h

pub Sound-none : (db : Db) → db.projections ≡ [] → Sound db
unfolding any
Sound-none db empty = rw empty refl

is_balanced-deduct :
    (hours : ℤ) (now : Text) (p : BalanceProjectionRow)
    → is_balanced p ≡ true
    → is_balanced (deduct hours now p) ≡ true
is_balanced-deduct hours now p h = grind int_laws

is_balanced-overwrite :
    (total used : ℤ) (version now : Text) (p : BalanceProjectionRow)
    → is_balanced (overwrite total used version now p) ≡ true
is_balanced-overwrite total used version now p = grind int_laws

allowed :
    (p : BalanceProjectionRow)
    → is_balanced p ≡ true
    → not (is_projection_row p) ≡ false
    → is_unsound p ≡ false
unfolding is_unsound
allowed p h k = ground arith

-- A row that is not unsound is balanced.
balanced : (p : BalanceProjectionRow) → is_unsound p ≡ false → is_balanced p ≡ true
unfolding is_unsound
balanced p h = ground arith

pub Sound-Replaced :
    (e t l : Text) (v : ℕ) (f : BalanceProjectionRow → BalanceProjectionRow) (db db' : Db)
    → ((p : BalanceProjectionRow) → is_balanced p ≡ true → is_balanced (f p) ≡ true)
    → Replaced e t l v f db db'
    → Sound db
    → Sound db'
Sound-Replaced e t l v f db db' keeps (fine, changed) h = rw changed (
    any-update_where-allowed is_unsound (λ p. not (is_projection_row p)) (is_current e t l v) f
      (λ p sound through. allowed (f p) (keeps p (balanced p sound)) through) db.projections fine h)

-- `create` and `updateFromHcm` calculate the column anew.
module _ (e t l : Text) (total used : ℤ) (version now : Text) (db db' : Db) where
  pub Sound-overwritten :
      (v : ℕ) → Replaced e t l v (overwrite total used version now) db db' → Sound db → Sound db'
  Sound-overwritten v =
      Sound-Replaced e t l v (overwrite total used version now) db db'
        (λ p _. is_balanced-overwrite total used version now p)

  is_balanced-new :
      (id : Text) → is_balanced (new_projection e t l total used version id now) ≡ true
  is_balanced-new id = grind int_laws

  pub Sound-Inserted :
      (id : Text)
      → Inserted (new_projection e t l total used version id now) db db'
      → Sound db
      → Sound db'
  Sound-Inserted id (fine, added) h =
      let row = new_projection e t l total used version id now in
      rw (added, any-append_one is_unsound db.projections row, h)
        (allowed row (is_balanced-new id) (rw fine refl))

pub Sound-deducted :
    (e t l : Text) (v : ℕ) (hours : ℤ) (now : Text) (db db' : Db)
    → Replaced e t l v (deduct hours now) db db'
    → Sound db
    → Sound db'
Sound-deducted e t l v hours now db db' =
    Sound-Replaced e t l v (deduct hours now) db db' (is_balanced-deduct hours now)
