-- ===== src/System/Rules.antt =====
-- How a property of the tables gets from what an operation ensures to the tables after it.
use readyon.Store.{World, Db, Outcome, ok, err, IsAtomic, Ensures}
use readyon.System.{final}

module _ {A : Type 0} (Q : Db → Type 0) (w : World) (P : A → World → Type 0) where
  pub after_atomic :
      (r : Outcome A)
      → IsAtomic w.db P r
      → ((a : A) (w' : World) → P a w' → Q w'.db)
      → Q w.db
      → Q (final r).db
  after_atomic (ok a w') done k h = k a w' done
  after_atomic (err e w') same k h = rw same h

  pub after_ensured :
      (r : Outcome A) → Ensures P r → ((a : A) (w' : World) → P a w' → Q w'.db) → Q (final r).db
  after_ensured (ok a w') done k = k a w' done
  after_ensured (err e w') never k = absurd never
