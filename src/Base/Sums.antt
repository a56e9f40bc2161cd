-- ===== src/Base/Sums.antt =====
-- Sums over the selected rows of a table.
use mathlib.Core.Path.{◌≡◌, refl, ap₂}
use mathlib.Core.Bool.{Bool, true}
use mathlib.Core.Logic.{inl, inr}
use native.Mathlib.Omega.{arith}
use mathlib.Core.Option.{some}
use mathlib.Core.List.{List, [], ◌∷◌, ◌++◌}
use readyon.Base.Tests.{if◌then◌else◌, Bool-cases}
use readyon.Base.Lists.{update_where, remove_first, find_first}
use readyon.Base.Int.{ℤ, pos, ◌+ℤ◌, int_laws}

-- `COALESCE(SUM(f), 0) … WHERE p`.
module _ {ℓ} {A : Type ℓ} where
  unfoldable pub sum_where : (A → Bool) → (A → ℤ) → List A → ℤ
  sum_where p f [] = pos 0
  sum_where p f (x ∷ xs) = (if p x then f x else pos 0) +ℤ sum_where p f xs

  pub sum_where-append_one :
      (p : A → Bool) (f : A → ℤ) (xs : List A) (x : A)
      → sum_where p f (xs ++ x ∷ []) ≡ sum_where p f xs +ℤ (if p x then f x else pos 0)
  unfolding sum_where
  sum_where-append_one p f [] x = omega int_laws
  sum_where-append_one p f (y ∷ xs) x = rw (sum_where-append_one p f xs x) (omega int_laws)

  -- The sum after an update is the sum by another test, if the two agree row by row.
  pub sum_where-update_where :
      (p q u : A → Bool) (f : A → ℤ) (g : A → A)
      → ((x : A)
          → (if p (if u x then g x else x) then f (if u x then g x else x) else pos 0)
            ≡ (if q x then f x else pos 0))
      → (xs : List A) → sum_where p f (update_where u g xs) ≡ sum_where q f xs
  unfolding sum_where update_where
  sum_where-update_where p q u f g h [] = refl
  sum_where-update_where p q u f g h (x ∷ xs) =
      ap₂ ◌+ℤ◌ (h x) (sum_where-update_where p q u f g h xs)

  -- What is removed is missing from the sum.
  pub sum_where-remove_first :
      (p q : A → Bool) (f : A → ℤ) (xs : List A) (x : A)
      → find_first q xs ≡ some x
      → sum_where p f xs ≡ sum_where p f (remove_first q xs) +ℤ (if p x then f x else pos 0)
  unfolding sum_where remove_first find_first
  sum_where-remove_first p q f [] x e = ground (arith)
  sum_where-remove_first p q f (y ∷ xs) x e = elim (Bool-cases (q y)) [
    | inl c ↦ rw (c, ← found c) (omega int_laws)
    | inr c ↦ rw (c, sum_where-remove_first p q f xs x (rw c at e)) (omega int_laws)
  ]
    where
      found : q y ≡ true → y ≡ x
      found c = ground arith
