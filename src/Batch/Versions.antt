-- ===== src/Batch/Versions.antt =====
-- The version gate of `BatchSyncService.processItem`.
use readyon.Base.{
  ◌≡◌, refl, true, Option, none, some, List, [], ◌∷◌, ◌++◌, ◌≤◌, ◌<◌, arith, Option-cases,
  Bool-cases, inl, inr, find_first_holds, find_first-append_some, find_first-update_where,
}
use readyon.Types.{Text, BalanceProjectionRow}
use readyon.Errors.{AppError}
use readyon.Store.{World, Db, Outcome, ok, err, IsAtomic, Ensures}
use readyon.Store.Returns.{and_then, ensure_more}
use readyon.Balance.Repository.{find_by_employee_and_type, is_projection}
use readyon.Balance.Held.{same_projection}
use readyon.Balance.Updates.{is_current, with_projection}
use readyon.Batch.Sync.{
  BatchSyncItem, ItemResult, created, updated, skipped_stale, item_failed, Tally, count_item,
  count_failure, process_item, process_one, process_items,
}
use readyon.Batch.Items.{Applied, process_item-IsAtomic, rewrite_row, loc, known, inserted}

-- A projection stays, at a version that is not older.
abbrev pub NotOlder : Option BalanceProjectionRow → Option BalanceProjectionRow → Type 0
NotOlder none q = Unit
NotOlder (some p) none = ⊥
NotOlder (some p) (some q) = p.hcm_version ≤ q.hcm_version

NotOlder-refl : (o : Option BalanceProjectionRow) → NotOlder o o
NotOlder-refl none = tt
NotOlder-refl (some p) = omega arith

NotOlder-trans : (x y z : Option BalanceProjectionRow) → NotOlder x y → NotOlder y z → NotOlder x z
NotOlder-trans none y z h k = tt
NotOlder-trans (some p) none z h k = absurd h
NotOlder-trans (some p) (some q) none h k = absurd k
NotOlder-trans (some p) (some q) (some r) h k = omega (arith, h, k)

module _ (a t l : Text) where
  abbrev found_in : Db → Option BalanceProjectionRow
  found_in db = find_by_employee_and_type a t l db

  -- Two rows of one key are found by the same search.
  same_key :
      (e u m : Text) (p : BalanceProjectionRow)
      → is_projection a t l p ≡ true
      → is_projection e u m p ≡ true
      → (a ≡ e) × (t ≡ u) × (l ≡ m)
  same_key e u m p h k = ground arith

  module _ (item : BatchSyncItem) (w : World) where
    -- A row of this key that the update hits is the row that was read.
    hit_row :
        (p q : BalanceProjectionRow)
        → found_in w.db ≡ some p
        → known item w ≡ some q
        → is_current item.employee_id item.leave_type (loc item w) q.version p ≡ true
        → p ≡ q
    hit_row p q found read hit =
        let own : is_projection a t l p ≡ true =
          find_first_holds (is_projection a t l) w.db.projections p
            (unfold find_by_employee_and_type in found) in
        let its : is_projection item.employee_id item.leave_type (loc item w) p ≡ true =
          ground arith in
        let (e, u, m) = same_key item.employee_id item.leave_type (loc item w) p own its in
        let again : found_in w.db ≡ some q = rw (e, u, m) read in cc

    updated_row :
        (p q : BalanceProjectionRow)
        → found_in w.db ≡ some p
        → known item w ≡ some q
        → q.hcm_version < item.hcm_version
        → NotOlder (some p) (
            found_in (
              with_projection item.employee_id item.leave_type
                (loc item w)
                q.version
                (rewrite_row item w)
                w.db))
    unfolding find_by_employee_and_type
    updated_row p q found read newer =
        let hit = is_current item.employee_id item.leave_type (loc item w) q.version in
        rw
          (find_first-update_where (is_projection a t l) hit (rewrite_row item w) (λ y. refl)
            w.db.projections p found)
          (elim (Bool-cases (hit p)) [
            | inl same ↦
                let one : p ≡ q = hit_row p q found read same in rw same (rw one (omega arith))
            | inr other ↦ rw other (omega arith)
          ])

    inserted_row :
        (p : BalanceProjectionRow) (db : Db)
        → found_in w.db ≡ some p
        → db.projections ≡ w.db.projections ++ inserted item w ∷ []
        → NotOlder (some p) (found_in db)
    unfolding find_by_employee_and_type
    inserted_row p db found added =
        rw
          (
            added,
            find_first-append_some (is_projection a t l) w.db.projections (inserted item w ∷ []) p
                found,
          )
          (omega arith)

    Applied-NotOlder :
        (r : ItemResult) (w' : World) (p : BalanceProjectionRow)
        → found_in w.db ≡ some p
        → Applied item w r w'
        → NotOlder (some p) (found_in w'.db)
    Applied-NotOlder created w' p found (_, _, _, added) = inserted_row p w'.db found added.1
    Applied-NotOlder skipped_stale w' p found (_, _, _, same) = rw (same, found) (omega arith)
    Applied-NotOlder updated w' p found (q, read, newer, _, changed, _) =
        rw (same_projection a t l _ w'.db changed.1) (updated_row p q found read newer)
    Applied-NotOlder item_failed w' p found never = absurd never

    Applied-kept :
        (r : ItemResult) (w' : World)
        → Applied item w r w'
        → NotOlder (found_in w.db) (found_in w'.db)
    Applied-kept r w' done = elim (Option-cases (found_in w.db)) [
      | inl absent ↦ rw absent tt
      | inr (p, found) ↦ rw found (Applied-NotOlder r w' p found done)
    ]

  module _ (message : AppError → Text) where
    -- No version of this key goes back.
    abbrev Forward : World → World → Type 0
    Forward w w' = NotOlder (found_in w.db) (found_in w'.db)

    one_outcome :
        (item : BatchSyncItem) (n : Tally) (w : World) (r : Outcome ItemResult)
        → IsAtomic w.db (Applied item w) r
        → Ensures
            (λ _. Forward w)
            (elim (elim r as (λ _. Outcome Tally) [
              | ok x w' ↦ ok (count_item item x n) w'
              | err e w' ↦ err e w'
            ])
              as (λ _. Outcome Tally) [
                | ok n' w' ↦ ok n' w'
                | err e w' ↦ ok (count_failure item (message e) n) w'
              ])
    one_outcome item n w (ok r w') done = Applied-kept item w r w' done
    one_outcome item n w (err e w') same = rw same (NotOlder-refl (found_in w.db))

    process_one-Forward :
        (item : BatchSyncItem) (n : Tally) (w : World)
        → Ensures (λ _. Forward w) (process_one message item n w)
    unfolding process_one
    process_one-Forward item n w =
        one_outcome item n w (process_item item w) (process_item-IsAtomic item w)

    -- Over any list of items, whatever becomes of each, a projection of any key stays, and its HCM
    -- version never goes back.
    pub process_items-NotOlder :
        (items : List BatchSyncItem) (n : Tally) (w : World)
        → Ensures
            (λ _ w'. NotOlder (found_in w.db) (found_in w'.db))
            (process_items message items n w)
    unfolding process_items
    process_items-NotOlder [] n w = NotOlder-refl (found_in w.db)
    process_items-NotOlder (item ∷ items) n w =
        and_then (λ _. Forward w) (λ _. Forward w) (process_one message item n w)
          (process_items message items) (process_one-Forward item n w)
          (λ n1 w1 first.
            ensure_more (λ _. Forward w1) (λ _. Forward w) (process_items message items n1 w1)
              (process_items-NotOlder items n1 w1)
              (λ n2 w2 rest.
                NotOlder-trans (found_in w.db) (found_in w1.db) (found_in w2.db) first rest))
