-- ===== src/Idempotency/Replay.antt =====
-- `IdempotencyService.check` and `store` over repeated calls under one key.
use native.Mathlib.Nat.{add-zero}
use readyon.Base.{
  zero, suc, ap, ◌∙◌, ℕ, ◌+◌, ◌≤◌, ◌<◌, ◌≡◌, refl, true, false, none, some, List, [], ◌∷◌, ◌++◌,
  ◌==◌, arith, find_first, find_first-append_none, any, if◌then◌else◌, ==_self,
}
use readyon.Types.{Text, IdempotencyRow, is_truthy}
use readyon.Store.{◌>>◌, pure, World, M, Outcome, ok, err, Returns, now_iso}
use readyon.Idempotency.{check, store, new_key, is_valid, day_ms, idempotent, answer, answer_new}

-- The clock of a world, moved on.
abbrev pub later : ℕ → World → World
later ms w = record w { clock_ms = w.clock_ms + ms }

-- `toISOString` keeps the order of times.
abbrev pub IsoIsMonotone : World → Type 0
IsoIsMonotone w = (a b : ℕ) → a < b → w.iso a < w.iso b

absent-valid :
    (key now : Text) (ks : List IdempotencyRow)
    → any (λ (k : IdempotencyRow). k.key == key) ks ≡ false
    → any (is_valid key now) ks ≡ false
unfolding any
absent-valid key now [] h = refl
absent-valid key now (k ∷ ks) h = ground (arith, absent-valid key now ks)

-- The world after a store.
abbrev pub with_key : Text → Text → Text → ℕ → World → World
with_key key hash response code w = record w {
  db = record w.db {
    keys =
        if any (λ (k : IdempotencyRow). k.key == key) w.db.keys
        then w.db.keys
        else w.db.keys ++ new_key key hash response code w ∷ [];
  };
}

-- A stored response is found for a day, if no row had its key before.
pub check-store :
    (key hash response : Text) (code ms : ℕ) (w : World)
    → IsoIsMonotone w
    → any (λ (k : IdempotencyRow). k.key == key) w.db.keys ≡ false
    → ms < day_ms
    → check key (later ms (with_key key hash response code w))
      ≡ some (new_key key hash response code w)
unfolding check
check-store key hash response code ms w mono absent soon = rw absent (
    find_first-append_none (is_valid key (w.iso (w.clock_ms + ms))) w.db.keys
      (new_key key hash response code w) (absent-valid key _ w.db.keys absent)
      (ground (arith, mono w.clock_ms w.clock_ms, mono (w.clock_ms + ms) (w.clock_ms + day_ms))))

module _ {A : Type 0} (json : A → Text) (hash : Text) (code : ℕ) (operation : M A) where
  -- When the operation has returned, no row has the key, and times are written as before.
  abbrev pub IsKeyless : Text → World → Type 0
  IsKeyless key w =
      Returns
        (λ _ w'. (any (λ (k : IdempotencyRow). k.key == key) w'.db.keys ≡ false) × (w'.iso ≡ w.iso))
        (operation w)

  keyed :
      (key : Text) (w : World)
      → is_truthy key ≡ true
      → idempotent json hash code operation (some key) w
        ≡ answer json hash code operation key (check key w) w
  unfolding idempotent
  keyed key w given = rw given

  answer_same :
      (key response : Text) (w w1 : World)
      → answer json hash code operation key (some (new_key key hash response code w1)) w
        ≡ ok response w
  unfolding answer
  answer_same key response w w1 = rw (==_self hash)

  replayed :
      (key : Text) (ms : ℕ) (w : World) (r : Outcome A)
      → is_truthy key ≡ true
      → Returns
          (λ _ w'.
            (any (λ (k : IdempotencyRow). k.key == key) w'.db.keys ≡ false) × (w'.iso ≡ w.iso))
          r
      → IsoIsMonotone w
      → ms < day_ms
      → Returns
          (λ response w'.
            idempotent json hash code operation (some key) (later ms w')
            ≡ ok response (later ms w'))
          (elim r as (λ _. Outcome Text) [
            | ok a w' ↦ (store key hash (json a) code >> pure (json a)) w'
            | err e w' ↦ err e w'
          ])
  unfolding store
  replayed key ms w (ok a w1) given (absent, iso) mono soon =
      let w2 = later ms (with_key key hash (json a) code w1) in
      keyed key w2 given
      ∙ ap (λ found. answer json hash code operation key found w2)
          (check-store key hash (json a) code ms w1 (rw iso mono) absent soon)
      ∙ answer_same key (json a) w2 w1
  replayed key ms w (err e w1) given facts mono soon = tt

  -- A call under a new key that returns is answered again, within a day and whatever else the
  -- repeated call would do, with the same response and without any effect.
  pub idempotent_replay :
      (key : Text) (ms : ℕ) (w : World)
      → is_truthy key ≡ true
      → check key w ≡ none
      → IsKeyless key w
      → IsoIsMonotone w
      → ms < day_ms
      → Returns
          (λ response w'.
            idempotent json hash code operation (some key) (later ms w')
            ≡ ok response (later ms w'))
          (idempotent json hash code operation (some key) w)
  unfolding answer_new answer
  idempotent_replay key ms w given new keyless mono soon =
      rw (keyed key w given, new, Returns) (replayed key ms w (operation w) given keyless mono soon)

iso_le : (w : World) (ms : ℕ) → IsoIsMonotone w → now_iso w ≤ w.iso (w.clock_ms + ms)
iso_le w zero mono = rw (add-zero) (omega arith)
iso_le w (suc n) mono = omega (arith, mono w.clock_ms (w.clock_ms + suc n) (omega arith))

still_expired :
    (key now next : Text) (ks : List IdempotencyRow)
    → now ≤ next
    → find_first (is_valid key now) ks ≡ none
    → find_first (is_valid key next) ks ≡ none
unfolding find_first
still_expired key now next [] h e = refl
still_expired key now next (k ∷ ks) h e = ground (arith, still_expired key now next ks)

module _ {A : Type 0} (json : A → Text) (hash : Text) (code : ℕ) (operation : M A) where
  expired_after :
      (key : Text) (w : World) (r : Outcome A)
      → check key w ≡ none
      → any (λ (k : IdempotencyRow). k.key == key) w.db.keys ≡ true
      → Returns (λ _ w'. (w'.db.keys ≡ w.db.keys) × (w'.iso ≡ w.iso) × (w'.clock_ms ≡ w.clock_ms)) r
      → IsoIsMonotone w
      → Returns
          (λ _ w'. (w'.db.keys ≡ w.db.keys) × ((ms : ℕ) → check key (later ms w') ≡ none))
          (elim r as (λ _. Outcome Text) [
            | ok a w' ↦ (store key hash (json a) code >> pure (json a)) w'
            | err e w' ↦ err e w'
          ])
  unfolding store check
  expired_after key w (ok a w1) gone present (keys, iso, clock) mono =
      rw (keys, iso, clock, present)
        (
          refl,
          λ ms.
              still_expired key (now_iso w) (w.iso (w.clock_ms + ms)) w.db.keys (iso_le w ms mono)
                gone,
        )
  expired_after key w (err e w1) gone present facts mono = tt

  -- When a key has expired, its row is still there, the operation leaves the keys and the clock
  -- alone, and the texts of times are ordered as the times, then a call under the key that returns
  -- has stored nothing: the rows of the keys are those before, and a check at any later time finds
  -- nothing, so that the next call is not protected.
  pub expired_key_unprotected :
      (key : Text) (w : World)
      → is_truthy key ≡ true
      → check key w ≡ none
      → any (λ (k : IdempotencyRow). k.key == key) w.db.keys ≡ true
      → Returns
          (λ _ w'. (w'.db.keys ≡ w.db.keys) × (w'.iso ≡ w.iso) × (w'.clock_ms ≡ w.clock_ms))
          (operation w)
      → IsoIsMonotone w
      → Returns
          (λ _ w'. (w'.db.keys ≡ w.db.keys) × ((ms : ℕ) → check key (later ms w') ≡ none))
          (idempotent json hash code operation (some key) w)
  unfolding answer_new answer
  expired_key_unprotected key w given gone present keeps mono =
      rw (keyed json hash code operation key w given, gone, Returns)
        (expired_after key w (operation w) gone present keeps mono)
