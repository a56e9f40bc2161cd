-- ===== src/Base/Lists.antt =====
-- Tables as lists of rows in insertion order: the row selections and updates of SQL.
use Prim.Native.Nat.{ℕ, zero, suc, ◌+◌, ◌≤◌}
use mathlib.Core.Path.{◌≡◌, refl, ap}
use mathlib.Core.Logic.{inl, inr}
use mathlib.Core.Bool.{Bool, true, false, ◌||◌}
use mathlib.Core.Option.{Option, none, some}
use mathlib.Core.List.{List, [], ◌∷◌, ◌++◌}
use native.Mathlib.Omega.{arith}
use readyon.Base.Tests.{if◌then◌else◌, ◌==◌, Bool-cases}

module _ {ℓ} {A : Type ℓ} where
  abbrev pub length : List A → ℕ
  length [] = 0
  length (x ∷ xs) = suc (length xs)

  abbrev pub take : ℕ → List A → List A
  take zero xs = []
  take (suc n) [] = []
  take (suc n) (x ∷ xs) = x ∷ take n xs

  pub length-take : (n : ℕ) (xs : List A) → length (take n xs) ≤ n
  length-take zero xs = omega arith
  length-take (suc n) [] = omega arith
  length-take (suc n) (x ∷ xs) = omega (arith, length-take n xs)

  -- `SELECT * … WHERE p`, read by `get`: the first row that fits.
  unfoldable pub find_first : (A → Bool) → List A → Option A
  find_first p [] = none
  find_first p (x ∷ xs) = if p x then some x else find_first p xs

  -- `SELECT * … WHERE p`, read by `all`.
  unfoldable pub select_where : (A → Bool) → List A → List A
  select_where p [] = []
  select_where p (x ∷ xs) = if p x then x ∷ select_where p xs else select_where p xs

  -- `SELECT COUNT(*) … WHERE p`, and the `changes` of an update.
  unfoldable pub count_where : (A → Bool) → List A → ℕ
  count_where p [] = 0
  count_where p (x ∷ xs) = (if p x then 1 else 0) + count_where p xs

  unfoldable pub any : (A → Bool) → List A → Bool
  any p [] = false
  any p (x ∷ xs) = p x || any p xs

  -- `UPDATE … SET f WHERE p`.
  unfoldable pub update_where : (A → Bool) → (A → A) → List A → List A
  update_where p f [] = []
  update_where p f (x ∷ xs) = (if p x then f x else x) ∷ update_where p f xs

  -- JavaScript's `map.set`, where `fits` tests an entry for the key of `x`.
  unfoldable pub set_entry : (A → Bool) → A → List A → List A
  unfolding any update_where
  set_entry fits x xs = if any fits xs then update_where fits (λ _. x) xs else xs ++ x ∷ []

  -- `splice` of the first row that fits.
  unfoldable pub remove_first : (A → Bool) → List A → List A
  remove_first p [] = []
  remove_first p (x ∷ xs) = if p x then xs else x ∷ remove_first p xs

  pub length-append : (xs ys : List A) → length (xs ++ ys) ≡ length xs + length ys
  length-append [] ys = omega arith
  length-append (x ∷ xs) ys = omega (arith, length-append xs ys)

-- Laws of the selections, for any test.
module _ {ℓ} {A : Type ℓ} (p : A → Bool) where
  pub find_first-append_none :
      (xs : List A) (x : A) → any p xs ≡ false → p x ≡ true → find_first p (xs ++ x ∷ []) ≡ some x
  unfolding find_first any
  find_first-append_none [] x h e = ground arith
  find_first-append_none (y ∷ xs) x h e = ground (arith, find_first-append_none xs x)

  pub find_first-append_some :
      (xs ys : List A) (x : A) → find_first p xs ≡ some x → find_first p (xs ++ ys) ≡ some x
  unfolding find_first
  find_first-append_some [] ys x h = ground arith
  find_first-append_some (y ∷ xs) ys x h = ground (arith, find_first-append_some xs ys x)

  pub find_first_holds : (xs : List A) (x : A) → find_first p xs ≡ some x → p x ≡ true
  unfolding find_first
  find_first_holds [] x h = ground arith
  find_first_holds (y ∷ xs) x h = ground (arith, find_first_holds xs x)

-- `ORDER BY`, by an insertion sort that keeps equal rows in their order.
module _ {ℓ} {A : Type ℓ} (le : A → A → Bool) where
  unfoldable pub insert_by : A → List A → List A
  insert_by x [] = x ∷ []
  insert_by x (y ∷ ys) = if le x y then x ∷ y ∷ ys else y ∷ insert_by x ys

  unfoldable pub order_by : List A → List A
  unfolding insert_by
  order_by [] = []
  order_by (x ∷ xs) = insert_by x (order_by xs)

module _ {ℓ} {A : Type ℓ} (p q : A → Bool) where
  pub any-or_left : (xs : List A) → any (λ x. p x || q x) xs ≡ false → any p xs ≡ false
  unfolding any
  any-or_left [] h = h
  any-or_left (x ∷ xs) h = ground (arith, any-or_left xs)

  pub any-or_right : (xs : List A) → any (λ x. p x || q x) xs ≡ false → any q xs ≡ false
  unfolding any
  any-or_right [] h = h
  any-or_right (x ∷ xs) h = ground (arith, any-or_right xs)

-- A row that is found and selected is counted, and is found again after an update that keeps `p`.
module _ {ℓ} {A : Type ℓ} (p u : A → Bool) where
  pub count_where-found :
      (xs : List A) (x : A)
      → find_first p xs ≡ some x
      → u x ≡ true
      → (count_where u xs == 0) ≡ false
  unfolding find_first count_where
  count_where-found [] x e h = ground arith
  count_where-found (y ∷ xs) x e h = ground (arith, count_where-found xs x)

  pub find_first-update_where :
      (f : A → A)
      → ((y : A) → p (f y) ≡ p y)
      → (xs : List A) (x : A) → find_first p xs ≡ some x
      → find_first p (update_where u f xs) ≡ some (if u x then f x else x)
  unfolding find_first update_where
  find_first-update_where f keeps [] x e = ground arith
  find_first-update_where f keeps (y ∷ xs) x e =
      ground (arith, keeps y, find_first-update_where f keeps xs x)

  pub find_first-update_where-none :
      (f : A → A)
      → ((y : A) → p (f y) ≡ p y)
      → (xs : List A) → find_first p xs ≡ none
      → find_first p (update_where u f xs) ≡ none
  unfolding find_first update_where
  find_first-update_where-none f keeps [] e = ground arith
  find_first-update_where-none f keeps (y ∷ xs) e =
      ground (arith, keeps y, find_first-update_where-none f keeps xs)

module _ {ℓ} {A : Type ℓ} (p : A → Bool) where
  pub any-last : (xs : List A) (x : A) → p x ≡ true → any p (xs ++ x ∷ []) ≡ true
  unfolding any
  any-last [] x h = ground arith
  any-last (y ∷ xs) x h = ground (arith, any-last xs x)

module _ {ℓ} {A : Type ℓ} (p : A → Bool) (f : A → A) where
  -- No row fits a test that its own update clears.
  pub count_where-cleared :
      ((x : A) → p x ≡ true → p (f x) ≡ false)
      → (xs : List A) → count_where p (update_where p f xs) ≡ 0
  unfolding count_where update_where
  count_where-cleared clears [] = refl
  count_where-cleared clears (x ∷ xs) = ground (arith, clears x, count_where-cleared clears xs)

-- A row that is found by one test is a row that another test may find.
module _ {ℓ} {A : Type ℓ} (p q : A → Bool) where
  pub any-found : (xs : List A) (x : A) → find_first p xs ≡ some x → q x ≡ true → any q xs ≡ true
  unfolding find_first any
  any-found [] x e h = ground arith
  any-found (y ∷ xs) x e h = ground (arith, any-found xs x)

  pub any-remove_first : (xs : List A) → any q xs ≡ false → any q (remove_first p xs) ≡ false
  unfolding remove_first any
  any-remove_first [] h = h
  any-remove_first (x ∷ xs) h = ground (arith, any-remove_first xs)

module _ {ℓ} {A : Type ℓ} (p : A → Bool) where
  pub any-find_first-none : (xs : List A) → find_first p xs ≡ none → any p xs ≡ false
  unfolding find_first any
  any-find_first-none [] e = refl
  any-find_first-none (x ∷ xs) e = ground (arith, any-find_first-none xs)

  pub any-append_one : (xs : List A) (x : A) → any p (xs ++ x ∷ []) ≡ any p xs || p x
  unfolding any
  any-append_one [] x = ground arith
  any-append_one (y ∷ xs) x = ground (arith, any-append_one xs x)

  -- Where no row fits, `set_entry` adds one.
  pub set_entry-none :
      (xs : List A) (x : A) → find_first p xs ≡ none → set_entry p x xs ≡ xs ++ x ∷ []
  unfolding set_entry
  set_entry-none xs x e = rw (any-find_first-none xs e) refl

  pub find_first-append_other :
      (xs : List A) (x : A) → p x ≡ false → find_first p (xs ++ x ∷ []) ≡ find_first p xs
  unfolding find_first
  find_first-append_other [] x h = ground arith
  find_first-append_other (y ∷ xs) x h = ground (arith, find_first-append_other xs x)

  pub find_first-append_new :
      (xs : List A) (x : A)
      → find_first p xs ≡ none
      → p x ≡ true
      → find_first p (xs ++ x ∷ []) ≡ some x
  find_first-append_new xs x e h = find_first-append_none p xs x (any-find_first-none xs e) h

  -- The row that was added last is the one that is removed, if no other fits.
  pub remove_first-append_one :
      (xs : List A) (x : A) → any p xs ≡ false → p x ≡ true → remove_first p (xs ++ x ∷ []) ≡ xs
  unfolding remove_first any
  remove_first-append_one [] x h e = ground arith
  remove_first-append_one (y ∷ xs) x h e = ground (arith, remove_first-append_one xs x)

  pub update_where-none :
      (f : A → A) (xs : List A) → find_first p xs ≡ none → update_where p f xs ≡ xs
  unfolding find_first update_where
  update_where-none f [] e = refl
  update_where-none f (x ∷ xs) e = elim (Bool-cases (p x)) [
    | inl c ↦ ground arith
    | inr c ↦ rw c (ap (λ ys. x ∷ ys) (update_where-none f xs (rw c at e)))
  ]
