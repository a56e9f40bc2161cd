-- ===== src/Hcm/MockAdapter/Countdown.antt =====
-- When a failure rule of src/integration/hcm/mock-hcm-adapter.ts fires.
use readyon.Base.{
  ℕ, zero, suc, pos, ◌-ℤ◌, leb_ℤ, Bool, true, false, List, [], ◌∷◌, ◌≡◌, refl, ap, arith, int_laws,
}
use readyon.Types.{Text}
use readyon.Hcm.MockAdapter.Faults.{
  Operation, FailureMode, transient_persistent, FailureConfig, targets, spend, manage_count, Check,
  passes, fires, check_config, check_failure,
}

abbrev fired : Check → Bool
fired (passes _) = false
fired (fires _ _) = true

abbrev left : Check → List FailureConfig
left (passes cs) = cs
left (fires _ cs) = cs

-- Which of the next calls of an operation for an employee have a failure injected.
pub outcomes : ℕ → Operation → Text → List FailureConfig → List Bool
outcomes zero o e cs = []
outcomes (suc n) o e cs =
    fired (check_failure o e cs) ∷ outcomes n o e (left (check_failure o e cs))

-- `k` outcomes: `n` calls pass, `m` fail, and the rest pass.
abbrev pub expected : ℕ → ℕ → ℕ → List Bool
expected n m zero = []
expected (suc n) m (suc k) = false ∷ expected n m k
expected zero (suc m) (suc k) = true ∷ expected zero m k
expected zero zero (suc k) = false ∷ expected zero zero k

abbrev pub is_persistent : FailureMode → Bool
is_persistent transient_persistent = true
is_persistent _ = false

manage_count-spend :
    (m : FailureMode) (c : FailureConfig) (cs : List FailureConfig)
    → is_persistent m ≡ false
    → manage_count m c cs ≡ spend c cs
unfolding manage_count
manage_count-spend m c cs h = ground arith

quiet : (k : ℕ) (o : Operation) (e : Text) → outcomes k o e [] ≡ expected 0 0 k
unfolding outcomes check_failure
quiet zero o e = refl
quiet (suc k) o e = ap (λ bs. false ∷ bs) (quiet k o e)

minus_one : (m : ℕ) → pos (suc m) -ℤ pos 1 ≡ pos m
minus_one m = omega int_laws

not_done : (m : ℕ) → leb_ℤ (pos (suc m)) (pos 0) ≡ false
not_done m = ground arith

spend_last : (c : FailureConfig) → c.failure_count ≡ pos 1 → spend c [] ≡ []
unfolding spend
spend_last c h = rw (h, minus_one 0) refl

spend_one :
    (m : ℕ) (c : FailureConfig)
    → c.failure_count ≡ pos (suc (suc m))
    → spend c [] ≡ record c { failure_count = pos (suc m) } ∷ []
unfolding spend
spend_one m c h = simp (h, minus_one (suc m), not_done m) refl

-- What one check does with a lone rule that fits.
module _ (o : Operation) (e : Text) (c : FailureConfig) (fits : targets c o e ≡ true) where
  counts_down :
      (n : ℕ)
      → c.countdown ≡ suc n
      → check_failure o e (c ∷ []) ≡ passes (record c { countdown = n } ∷ [])
  unfolding check_failure check_config
  counts_down n h = ground arith

  fires_now : c.countdown ≡ 0 → check_failure o e (c ∷ []) ≡ fires c.mode (manage_count c.mode c [])
  unfolding check_failure check_config
  fires_now h = ground arith

failing :
    (m k : ℕ) (o : Operation) (e : Text) (c : FailureConfig)
    → targets c o e ≡ true
    → is_persistent c.mode ≡ false
    → c.countdown ≡ 0
    → c.failure_count ≡ pos (suc m)
    → outcomes k o e (c ∷ []) ≡ expected 0 (suc m) k
unfolding outcomes
failing m zero o e c fits mode now count = refl
failing zero (suc k) o e c fits mode now count =
    simp (fires_now o e c fits now, manage_count-spend c.mode c [] mode, spend_last c count)
      (ap (λ bs. true ∷ bs) (quiet k o e))
failing (suc m) (suc k) o e c fits mode now count =
    simp (fires_now o e c fits now, manage_count-spend c.mode c [] mode, spend_one m c count)
      (ap (λ bs. true ∷ bs)
        (failing m k o e (record c { failure_count = pos (suc m) }) fits mode now refl))

-- A lone rule that fits the calls, is not persistent, and has a count of at least one, lets as many
-- of the calls through as its countdown says, fails as many after them as its count says, and
-- none of those that follow.
pub countdown_then_failures :
    (n m k : ℕ) (o : Operation) (e : Text) (c : FailureConfig)
    → targets c o e ≡ true
    → is_persistent c.mode ≡ false
    → c.countdown ≡ n
    → c.failure_count ≡ pos (suc m)
    → outcomes k o e (c ∷ []) ≡ expected n (suc m) k
unfolding outcomes
countdown_then_failures zero m k o e c fits mode n count = failing m k o e c fits mode n count
countdown_then_failures (suc n) m zero o e c fits mode q count = refl
countdown_then_failures (suc n) m (suc k) o e c fits mode q count =
    simp (counts_down o e c fits n q) (
      ap (λ bs. false ∷ bs)
        (countdown_then_failures n m k o e (record c { countdown = n }) fits mode refl count))
