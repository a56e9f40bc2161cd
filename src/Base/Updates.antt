-- ===== src/Base/Updates.antt =====
-- What an update of some rows leaves alone.
use mathlib.Core.Path.{◌≡◌, refl}
use mathlib.Core.Bool.{Bool, true, false, ◌&&◌}
use mathlib.Core.List.{List, [], ◌∷◌}
use native.Mathlib.Omega.{arith}
use readyon.Base.Lists.{find_first, any, update_where}

module _ {ℓ} {A : Type ℓ} (p u : A → Bool) (f : A → A) where
  -- Rows that fit are not updated.
  pub find_first-update_where-other :
      ((y : A) → u y ≡ true → p y ≡ false)
      → ((y : A) → p (f y) ≡ p y)
      → (xs : List A) → find_first p (update_where u f xs) ≡ find_first p xs
  unfolding find_first update_where
  find_first-update_where-other apart keeps [] = refl
  find_first-update_where-other apart keeps (y ∷ xs) =
      ground (arith, apart y, keeps y, find_first-update_where-other apart keeps xs)

  -- The update makes no row fit.
  pub any-update_where :
      ((y : A) → p (f y) ≡ true → p y ≡ true)
      → (xs : List A) → any p xs ≡ false
      → any p (update_where u f xs) ≡ false
  unfolding any update_where
  any-update_where back [] h = refl
  any-update_where back (y ∷ xs) h = ground (arith, back y, any-update_where back xs)

  -- The update takes each row that fits out.
  pub any-update_where-none :
      ((y : A) → p y ≡ true → u y ≡ true)
      → ((y : A) → p (f y) ≡ false)
      → (xs : List A) → any p (update_where u f xs) ≡ false
  unfolding any update_where
  any-update_where-none reached out [] = refl
  any-update_where-none reached out (y ∷ xs) =
      ground (arith, reached y, out y, any-update_where-none reached out xs)

module _ {ℓ} {A : Type ℓ} (bad refused hit : A → Bool) (f : A → A) where
  -- Updated rows that are not refused are not bad.
  pub any-update_where-allowed :
      ((y : A) → bad y ≡ false → refused (f y) ≡ false → bad (f y) ≡ false)
      → (xs : List A) → any (λ y. hit y && refused (f y)) xs ≡ false
      → any bad xs ≡ false
      → any bad (update_where hit f xs) ≡ false
  unfolding any update_where
  any-update_where-allowed step [] h k = refl
  any-update_where-allowed step (y ∷ xs) h k =
      ground (arith, step y, any-update_where-allowed step xs)

module _ {ℓ} {A : Type ℓ} (p u : A → Bool) (f : A → A) where
  -- Rows that fit and are not updated stay.
  pub any-update_where-rest :
      ((y : A) → u y ≡ true → p y ≡ false)
      → (xs : List A) → any p xs ≡ true
      → any p (update_where u f xs) ≡ true
  unfolding any update_where
  any-update_where-rest apart [] h = absurd (ground arith)
  any-update_where-rest apart (y ∷ xs) h = ground (arith, apart y, any-update_where-rest apart xs)
