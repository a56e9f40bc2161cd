-- ===== src/Reconciliation/Rounds.antt =====
-- What `ReconciliationService.runReconciliation` does with each projection of its page.
use readyon.Base.{ℕ, ◌+◌, ◌≡◌, refl, ◌⊎◌, inl, inr, ℤ, ⊤, Option, none, some, List, [], ◌∷◌}
use readyon.Types.{Text, or_default, hq, empty_text, BalanceProjectionRow}
use readyon.Errors.{AppError}
use readyon.Store.{World, M, Outcome, ok, err, IsAtomic, Ensures, catch, pure, generate_id, ◌>>◌}
use readyon.Store.Returns.{and_then, ensure_more}
use readyon.Balance.Repository.{find_by_employee_and_type, find_all_projections}
use readyon.Hcm.Port.{HcmAdapterPort, HcmGetBalanceResponse}
use readyon.Reconciliation.{
  ReconcileResult, in_step, reconcile_local, reconcile_one, reconcile_all, run_reconciliation,
}
use readyon.Reconciliation.Results.{Reconciled, reconcile_local-IsAtomic}

-- The page of a run.
abbrev pub page : ℕ → Text → World → List BalanceProjectionRow
page batch_size last w = find_all_projections (some last) batch_size w.db

-- The employee at which the next page starts: after an empty page, the first one again.
abbrev pub before_page : Text → List BalanceProjectionRow → Text
before_page last [] = empty_text
before_page last (p ∷ ps) = last

module _ (port : HcmAdapterPort) (threshold : ℤ) where
  -- Once the balance has been answered: there is no projection and nothing happens, or the
  -- projection is reconciled with the answer, or that raises and leaves the tables alone.
  abbrev pub Answered : Text → Text → Text → HcmGetBalanceResponse → World → World → Type 0
  Answered e t l b w w' =
      ((find_by_employee_and_type e t l w.db ≡ none) × (w' ≡ w))
      ⊎ ((p : BalanceProjectionRow) × (find_by_employee_and_type e t l w.db ≡ some p)
          × (((r : ReconcileResult) × Reconciled e t l b threshold p w r w')
              ⊎ ((x : AppError) × (reconcile_local e t l b threshold p w ≡ err x w')
                  × (w'.db ≡ w.db))))

  -- The HCM system is asked once, for the employee and the leave type; if it raises, its world is
  -- the round's.
  abbrev pub Round : Text → Text → Text → World → World → Type 0
  Round e t l w w' =
      let asked = port.get_balance e t (w.uuid w.drawn) (record w { drawn = w.drawn + 1 }) in
      ((x : AppError) × (asked ≡ err x w'))
      ⊎ ((b : HcmGetBalanceResponse) × (w1 : World) × (asked ≡ ok b w1) × Answered e t l b w1 w')

  -- The rounds of a list of projections, in its order and one for each; the text is the last
  -- employee, and before the first projection the one that is given.
  pub data Rounds : Text → List BalanceProjectionRow → World → Text → World → Type 0 where
    all_done : {w : World} {last : Text} → Rounds last [] w last w
    round_then :
        {w w1 w' : World} {last last' : Text} (p : BalanceProjectionRow)
        (ps : List BalanceProjectionRow)
        → Round p.employee_id p.leave_type (or_default p.location hq) w w1
        → Rounds p.employee_id ps w1 last' w'
        → Rounds last (p ∷ ps) w last' w'

  -- What `catch` leaves of an outcome in a round.
  abbrev ignored : {A : Type 0} → Outcome A → Outcome ⊤
  ignored r =
      elim (elim r as (λ _. Outcome ⊤) [ ok a w' ↦ ok tt w' | err e w' ↦ err e w' ])
        as (λ _. Outcome ⊤) [ ok a w' ↦ ok a w' | err e w' ↦ ok tt w' ]

  module _ (e t l : Text) (b : HcmGetBalanceResponse) (w : World) where
    reconciled :
        (p : BalanceProjectionRow) (r : Outcome ReconcileResult)
        → find_by_employee_and_type e t l w.db ≡ some p
        → reconcile_local e t l b threshold p w ≡ r
        → IsAtomic w.db (Reconciled e t l b threshold p w) r
        → Ensures (λ _. Answered e t l b w) (ignored r)
    reconciled p (ok r w') found q h = inr (p, found, inl (r, h))
    reconciled p (err x w') found q h = inr (p, found, inr (x, q, h))

    answered :
        (o : Option BalanceProjectionRow)
        → find_by_employee_and_type e t l w.db ≡ o
        → Ensures
            (λ _. Answered e t l b w)
            (ignored (
              (elim o as (λ _. M ReconcileResult) [
                | none ↦ pure in_step
                | some p ↦ reconcile_local e t l b threshold p
              ])
                w))
    answered none found = inl (found, refl)
    answered (some p) found =
        reconciled p (reconcile_local e t l b threshold p w) found refl
          (reconcile_local-IsAtomic e t l b threshold p w found)

  asked_for :
      (e t l : Text) (w : World) (r : Outcome HcmGetBalanceResponse)
      → port.get_balance e t (w.uuid w.drawn) (record w { drawn = w.drawn + 1 }) ≡ r
      → Ensures
          (λ _. Round e t l w)
          (ignored (elim r as (λ _. Outcome ReconcileResult) [
            | ok b w1 ↦
                (elim (find_by_employee_and_type e t l w1.db) as (λ _. M ReconcileResult) [
                  | none ↦ pure in_step
                  | some p ↦ reconcile_local e t l b threshold p
                ])
                  w1
            | err x w1 ↦ err x w1
          ]))
  asked_for e t l w (ok b w1) q =
      ensure_more (λ _. Answered e t l b w1) (λ _. Round e t l w) _
        (answered e t l b w1 (find_by_employee_and_type e t l w1.db) refl)
        (λ _ w' done. inr (b, w1, q, done))
  asked_for e t l w (err x w1) q = inl (x, q)

  reconcile_all-Rounds :
      (last : Text) (ps : List BalanceProjectionRow) (w : World)
      → Ensures (Rounds last ps w) (reconcile_all port threshold last ps w)
  unfolding reconcile_all reconcile_one generate_id
  reconcile_all-Rounds last [] w = all_done
  reconcile_all-Rounds last (p ∷ ps) w =
      let l = or_default p.location hq in
      and_then (λ (_ : ⊤). Round p.employee_id p.leave_type l w) (Rounds last (p ∷ ps) w)
        (catch (do reconcile_one port threshold p.employee_id p.leave_type l; pure tt)
          (λ _. pure tt) w)
        (λ _. reconcile_all port threshold p.employee_id ps)
        (asked_for p.employee_id p.leave_type l w (port.get_balance _ _ _ _) refl)
        (λ _ w1 done.
          ensure_more (Rounds p.employee_id ps w1) (Rounds last (p ∷ ps) w) _
            (reconcile_all-Rounds p.employee_id ps w1)
            (λ last' w' others. round_then p ps done others))

  page-Rounds :
      (last : Text) (ps : List BalanceProjectionRow) (w : World)
      → Ensures (Rounds (before_page last ps) ps w) (
          (elim ps as (λ _. M Text) [
            | [] ↦ pure empty_text
            | p ∷ qs ↦ reconcile_all port threshold last (p ∷ qs)
          ])
            w)
  page-Rounds last [] w = all_done
  page-Rounds last (p ∷ ps) w = reconcile_all-Rounds last (p ∷ ps) w

  -- A run of the reconciliation never raises. It has one round for each projection of the page that
  -- follows the employee of the last run, in order, and returns the employee of the last one, or the
  -- empty text when the page is empty, so that the next run begins anew. In each round the HCM system
  -- is asked once for the balance of the projection's employee and leave type. If it raises, nothing
  -- else happens; if it answers, the projection as it is then, at the page row's location or HQ, is
  -- reconciled with the answer within the threshold, or this raises and leaves the tables alone;
  -- nothing happens if it is gone.
  pub run_reconciliation-Rounds :
      (batch_size : ℕ) (last : Text) (w : World)
      → Ensures
          (Rounds (before_page last (page batch_size last w)) (page batch_size last w) w)
          (run_reconciliation port threshold batch_size last w)
  unfolding run_reconciliation
  run_reconciliation-Rounds batch_size last w = page-Rounds last (page batch_size last w) w
