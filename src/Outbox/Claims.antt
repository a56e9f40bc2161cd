-- ===== src/Outbox/Claims.antt =====
-- `OutboxRepository.claimPendingEntries`, over two claims.
use readyon.Base.{
  ◌≡◌, refl, ◌∙◌, Bool, true, false, ◌&&◌, ◌||◌, ◌==◌, List, [], ◌∷◌, ℕ, zero, suc, arith, any,
  take, select_where, order_by, insert_by, update_where,
}
use readyon.Types.{Text, IntegrationOutboxRow, is_pending, processing}
use readyon.Store.{Db, World, Ensures, now_iso}
use readyon.Outbox.Repository.{claim_pending_entries, select_pending, is_claimable}

-- What no row of a table meets, no selected, ordered or limited row meets.
module _ {ℓ} {A : Type ℓ} (q : A → Bool) where
  any-take : (n : ℕ) (xs : List A) → any q xs ≡ false → any q (take n xs) ≡ false
  unfolding any
  any-take zero xs h = refl
  any-take (suc n) [] h = refl
  any-take (suc n) (x ∷ xs) h = ground (arith, any-take n xs)

  any-insert_by :
      (le : A → A → Bool) (x : A) (ys : List A) → any q (insert_by le x ys) ≡ q x || any q ys
  unfolding any insert_by
  any-insert_by le x [] = refl
  any-insert_by le x (y ∷ ys) = ground (arith, any-insert_by le x ys)

  any-order_by : (le : A → A → Bool) (xs : List A) → any q (order_by le xs) ≡ any q xs
  unfolding any order_by
  any-order_by le [] = refl
  any-order_by le (x ∷ xs) = rw (any-insert_by le x (order_by le xs), any-order_by le xs) refl

  any-select_where :
      (p r : A → Bool)
      → ((x : A) → p x ≡ true → r x ≡ true)
      → (xs : List A) → any (λ x. q x && r x) xs ≡ false
      → any q (select_where p xs) ≡ false
  unfolding any select_where
  any-select_where p r implies [] h = refl
  any-select_where p r implies (x ∷ xs) h =
      ground (arith, implies x, any-select_where p r implies xs)

module _ {ℓ} {A : Type ℓ} (hit : A → Bool) (f : A → A) where
  any-cleared :
      ((x : A) → hit (f x) ≡ false) → (xs : List A) → any hit (update_where hit f xs) ≡ false
  unfolding any update_where
  any-cleared clears [] = refl
  any-cleared clears (x ∷ xs) = ground (arith, clears x, any-cleared clears xs)

abbrev pub is_among : List IntegrationOutboxRow → IntegrationOutboxRow → Bool
is_among claimed e = any (λ (c : IntegrationOutboxRow). c.id == e.id) claimed

selected :
    (claimed : List IntegrationOutboxRow) (time : Text) (n : ℕ) (db : Db)
    → any (λ e. is_among claimed e && is_pending e.status) db.entries ≡ false
    → any (is_among claimed) (select_pending time n db) ≡ false
unfolding select_pending
selected claimed time n db none_left = any-take (is_among claimed) n _ (
    any-order_by (is_among claimed) _ _
    ∙ any-select_where (is_among claimed) (is_claimable time) (λ e. is_pending e.status)
        (λ e h. ground arith) db.entries none_left)

-- Once entries are claimed, no later selection, at any time and of any size, has one of them, as
-- long as the outbox is as the claim has left it.
pub claim_pending_entries-exclusive :
    (limit next_limit : ℕ) (later : Text) (w : World)
    → Ensures
        (λ claimed w'. any (is_among claimed) (select_pending later next_limit w'.db) ≡ false)
        (claim_pending_entries limit w)
unfolding claim_pending_entries
claim_pending_entries-exclusive limit next_limit later w =
    let claimed = select_pending (now_iso w) limit w.db in
    selected claimed later next_limit _ (
      any-cleared (λ e. is_among claimed e && is_pending e.status)
        (λ e. record e { status = processing; updated_at = now_iso w }) (λ e. ground arith)
        w.db.entries)
