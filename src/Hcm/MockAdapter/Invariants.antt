-- ===== src/Hcm/MockAdapter/Invariants.antt =====
-- How a property of the state passes through what happens in the adapter of
-- src/integration/hcm/mock-hcm-adapter.ts.
use readyon.Base.{none, List, [], ◌∷◌, find_first, ◌≡◌, refl, inl, inr, Option-cases}
use readyon.Types.{Text}
use readyon.Hcm.Port.{HcmPostTimeOffRequest, HcmCancelTimeOffRequest}
use readyon.Hcm.MockAdapter.Faults.{
  Operation, Check, passes, fires, check_failure, posting, canceling, getting_balance,
  getting_batch,
}
use readyon.Hcm.MockAdapter.State.{
  MockBalance, MockHcm, is_stored_under, is_balance_of, set_balance, set_balances, new_mock, reset,
}
use readyon.Hcm.MockAdapter.Calls.{
  Instant, Ended, after_check, apply_post, apply_cancel, answer_get, answer_post, answer_cancel,
  answer_batch, read_balance, read_batch,
}
use readyon.Hcm.MockAdapter.Steps.{
  Event, starts, gets_balance, posts, cancels, gets_batch, sets_delay, adds_failure,
  sets_failure_mode, clears_failures, sets_balance, sets_balances, resets, step, run,
}

-- The two states have the same balances, responses and deductions.
abbrev pub Same : MockHcm → MockHcm → Type 0
Same s s' =
    (s'.balances ≡ s.balances)
    × (s'.idempotency_store ≡ s.idempotency_store)
    × (s'.deductions ≡ s.deductions)

-- Conditions on the requests to post, on the balances that are set, and on a reset.
pub record Conditions : Type 1 where
  pub on_post : HcmPostTimeOffRequest → Type 0
  pub on_balance : MockBalance → Type 0
  pub on_reset : Type 0

abbrev AllBalances : (MockBalance → Type 0) → List MockBalance → Type 0
AllBalances B [] = Unit
AllBalances B (b ∷ bs) = B b × AllBalances B bs

abbrev IsAllowed : Conditions → Event → Type 0
IsAllowed c (posts r _) = c.on_post r
IsAllowed c (sets_balance b) = c.on_balance b
IsAllowed c (sets_balances bs) = AllBalances c.on_balance bs
IsAllowed c resets = c.on_reset
IsAllowed c _ = Unit

-- The conditions hold of all that happens.
abbrev pub Allowed : Conditions → List Event → Type 0
Allowed c [] = Unit
Allowed c (e ∷ es) = IsAllowed c e × Allowed c es

module _ (P : MockHcm → Type 0) (same : (s s' : MockHcm) → Same s s' → P s → P s') where
  pub after_check-keeps :
      {A : Type 0} (o : Operation) (e c : Text) (k : MockHcm → Ended A) (s : MockHcm)
      → ((s' : MockHcm) → Same s s' → P (k s').1)
      → P s
      → P (after_check o e c k s).1
  unfolding after_check
  after_check-keeps o e c k s next h = go (check_failure o e s.failure_configs) refl
    where
      go : (r : Check) → check_failure o e s.failure_configs ≡ r → P (after_check o e c k s).1
      go (passes cs) q = rw (q, after_check) (next _ (refl, refl, refl))
      go (fires mode cs) q = rw (q, after_check) (same s _ (refl, refl, refl) h)

  pub answer_get-keeps : (e t c : Text) (s : MockHcm) → P s → P (answer_get e t c s).1
  unfolding answer_get
  answer_get-keeps e t c s h = after_check-keeps getting_balance e c (read_balance e t c) s reads h
    where
      reads : (s' : MockHcm) → Same s s' → P (read_balance e t c s').1
      reads s' q = elim (Option-cases (find_first (is_balance_of e t) s'.balances)) [
        | inl n ↦ rw (n, read_balance) (same s s' q h)
        | inr (b, found) ↦ rw (found, read_balance) (same s s' q h)
      ]

  module _ (c : Conditions)
      (on_post : (r : HcmPostTimeOffRequest) (now : Instant) (s : MockHcm)
        → c.on_post r
        → find_first (is_stored_under r.idempotency_key) s.idempotency_store ≡ none
        → P s
        → P (apply_post r now s).1)
      (on_cancel : (r : HcmCancelTimeOffRequest) (now : Instant) (s : MockHcm)
        → find_first (is_stored_under r.idempotency_key) s.idempotency_store ≡ none
        → P s
        → P (apply_cancel r now s).1)
      (on_balance : (b : MockBalance) (s : MockHcm) → c.on_balance b → P s → P (set_balance b s))
      (on_reset : c.on_reset → P new_mock) where
    pub answer_post-keeps :
        (r : HcmPostTimeOffRequest) (now : Instant) (s : MockHcm)
        → c.on_post r
        → P s
        → P (answer_post r now s).1
    unfolding answer_post
    answer_post-keeps r now s q h =
        elim (Option-cases (find_first (is_stored_under r.idempotency_key) s.idempotency_store)) [
          | inl n ↦
              rw (n, answer_post)
                (after_check-keeps posting r.employee_id r.correlation_id (apply_post r now) s
                  (λ s' e. on_post r now s' q (rw e.1 n) (same s s' e h)) h)
          | inr (stored, found) ↦ rw (found, answer_post) (same s _ (refl, refl, refl) h)
        ]

    pub answer_cancel-keeps :
        (r : HcmCancelTimeOffRequest) (now : Instant) (s : MockHcm)
        → P s
        → P (answer_cancel r now s).1
    unfolding answer_cancel
    answer_cancel-keeps r now s h =
        elim (Option-cases (find_first (is_stored_under r.idempotency_key) s.idempotency_store)) [
          | inl n ↦
              rw (n, answer_cancel)
                (after_check-keeps canceling r.employee_id r.correlation_id (apply_cancel r now) s
                  (λ s' e. on_cancel r now s' (rw e.1 n) (same s s' e h)) h)
          | inr (stored, found) ↦ rw (found, answer_cancel) (same s _ (refl, refl, refl) h)
        ]

    set_balances-keeps :
        (bs : List MockBalance) (s : MockHcm)
        → AllBalances c.on_balance bs
        → P s
        → P (set_balances bs s)
    unfolding set_balances
    set_balances-keeps [] s q h = h
    set_balances-keeps (b ∷ bs) s q h =
        set_balances-keeps bs (set_balance b s) q.1 (on_balance b s q.0 h)

    pub run-keeps : (es : List Event) (s : MockHcm) → Allowed c es → P s → P (run es s)
    unfolding run step answer_batch reset
    run-keeps [] s q h = h
    run-keeps (sets_balance b ∷ es) s q h = run-keeps es _ q.1 (on_balance b s q.0 h)
    run-keeps (sets_balances bs ∷ es) s q h = run-keeps es _ q.1 (set_balances-keeps bs s q.0 h)
    run-keeps (resets ∷ es) s q h = run-keeps es _ q.1 (on_reset q.0)
    run-keeps (starts o e ∷ es) s q h = run-keeps es _ q.1 (same s _ (refl, refl, refl) h)
    run-keeps (gets_balance e t c ∷ es) s q h = run-keeps es _ q.1 (answer_get-keeps e t c s h)
    run-keeps (posts r now ∷ es) s q h = run-keeps es _ q.1 (answer_post-keeps r now s q.0 h)
    run-keeps (cancels r now ∷ es) s q h = run-keeps es _ q.1 (answer_cancel-keeps r now s h)
    run-keeps (gets_batch system since c now ∷ es) s q h = run-keeps es _ q.1 (
        after_check-keeps getting_batch system c (read_batch since now) s (λ s' e. same s s' e h) h)
    run-keeps (sets_delay ms ∷ es) s q h = run-keeps es _ q.1 (same s _ (refl, refl, refl) h)
    run-keeps (adds_failure c ∷ es) s q h = run-keeps es _ q.1 (same s _ (refl, refl, refl) h)
    run-keeps (sets_failure_mode m n ∷ es) s q h =
        run-keeps es _ q.1 (same s _ (refl, refl, refl) h)
    run-keeps (clears_failures ∷ es) s q h = run-keeps es _ q.1 (same s _ (refl, refl, refl) h)
