-- ===== src/Store/Returns.antt =====
-- Rules for operations of the monad.
use readyon.Base.{◌≡◌, refl, Bool, true, false, Option, none, some}
use readyon.Errors.{AppError}
use readyon.Store.{
  World, Db, Outcome, ok, err, M, Returns, IsAtomic, Ensures, raise_if, or_raise,
  run_in_transaction, settle, ◌>>=◌, ◌>>◌,
}

module _ {A : Type 0} (R : A → World → Type 0) where
  pub guard :
      (c : Bool) (e : AppError) (k : M A) (w : World)
      → (c ≡ false → Returns R (k w))
      → Returns R ((raise_if c e >> k) w)
  guard true e k w h = tt
  guard false e k w h = h refl

  pub need :
      {B : Type 0} (o : Option B) (e : AppError) (k : B → M A) (w : World)
      → ((b : B) → o ≡ some b → Returns R (k b w))
      → Returns R ((or_raise o e >>= k) w)
  need none e k w h = tt
  need (some b) e k w h = h b refl

  settled : (before : Db) (r : Outcome A) → Returns R r → IsAtomic before R (settle before r)
  settled before (ok a w) h = h
  settled before (err e w) h = refl

  -- A transaction adds that a raise leaves the tables alone.
  pub transaction :
      (m : M A) (w : World) → Returns R (m w) → IsAtomic w.db R (run_in_transaction m w)
  transaction m w h = settled w.db (m w) h

module _ {A : Type 0} (before : Db) (R : A → World → Type 0) where
  -- A guard that comes before any write.
  pub refuse :
      (c : Bool) (e : AppError) (k : M A) (w : World)
      → w.db ≡ before
      → (c ≡ false → IsAtomic before R (k w))
      → IsAtomic before R ((raise_if c e >> k) w)
  refuse true e k w same h = same
  refuse false e k w same h = h refl

module _ {A : Type 0} (P R : A → World → Type 0) where
  pub weaken :
      (r : Outcome A)
      → Returns P r
      → ((a : A) (w : World) → P a w → Returns R (ok a w))
      → Returns R r
  weaken (ok a w) h k = k a w h
  weaken (err e w) h k = tt

module _ {A : Type 0} (before : Db) (P R : A → World → Type 0) where
  -- What follows of every return of an atomic operation.
  pub conclude :
      (r : Outcome A) → IsAtomic before P r → ((a : A) (w : World) → P a w → R a w) → Returns R r
  conclude (ok a w) h k = k a w h
  conclude (err e w) h k = tt

module _ {A B : Type 0} (P : A → World → Type 0) (R : B → World → Type 0) where
  -- What follows an operation that returns.
  pub and_then :
      (r : Outcome A) (k : A → M B)
      → Ensures P r
      → ((a : A) (w : World) → P a w → Ensures R (k a w))
      → Ensures R (elim r as (λ _. Outcome B) [ ok a w ↦ k a w | err e w ↦ err e w ])
  and_then (ok a w) k h next = next a w h
  and_then (err e w) k h next = absurd h

  pub followed_by :
      (r : Outcome A) (k : A → M B)
      → Ensures P r
      → ((a : A) (w : World) → P a w → Returns R (k a w))
      → Returns R (elim r as (λ _. Outcome B) [ ok a w ↦ k a w | err e w ↦ err e w ])
  followed_by (ok a w) k h next = next a w h
  followed_by (err e w) k h next = absurd h

pub ensure_more :
    {A : Type 0} (P R : A → World → Type 0) (r : Outcome A)
    → Ensures P r
    → ((a : A) (w : World) → P a w → R a w)
    → Ensures R r
ensure_more P R (ok a w) h k = k a w h
ensure_more P R (err e w) h k = absurd h

-- What an outcome ensures, with a family of things that it ensures.
pub ensure_both :
    {A X : Type 0} (P : A → World → Type 0) (R : X → A → World → Type 0) (r : Outcome A)
    → Ensures P r
    → ((x : X) → Ensures (R x) r)
    → Ensures (λ a w. P a w × ((x : X) → R x a w)) r
ensure_both P R (ok a w) h k = (h, k)
ensure_both P R (err e w) h k = absurd h
