-- ===== src/Hcm/MockAdapter/Totals.antt =====
-- What the balances of src/integration/hcm/mock-hcm-adapter.ts come to.
use readyon.Base.{
  ⊤, ◌≡◌, ℤ, pos, ◌+ℤ◌, List, find_first, any, sum_where, refl, inl, inr, Option-cases,
}
use readyon.Types.{Text}
use readyon.Hcm.Port.{HcmCancelTimeOffRequest}
use readyon.Hcm.MockAdapter.State.{MockHcm, new_mock}
use readyon.Hcm.MockAdapter.Calls.{Instant, has_reference, apply_cancel}
use readyon.Hcm.MockAdapter.Steps.{Event, run}
use readyon.Hcm.MockAdapter.Invariants.{Conditions, Allowed, run-keeps}
use readyon.Hcm.MockAdapter.Ledger.{taken, Booked, Booked-same, apply_post-Booked, reverse-Booked}

apply_cancel-Booked :
    (opening : Text → Text → ℤ) (r : HcmCancelTimeOffRequest) (now : Instant) (s : MockHcm)
    → Booked opening s
    → Booked opening (apply_cancel r now s).1
unfolding apply_cancel
apply_cancel-Booked opening r now s h =
    elim (Option-cases (find_first (has_reference r.hcm_reference_id) s.deductions)) [
      | inl n ↦ rw (n, apply_cancel) h
      | inr (d, found) ↦ rw (found, apply_cancel) (reverse-Booked opening r now d s found h)
    ]

new_mock-Booked_any :
    (opening : Text → Text → ℤ) → ((e t : Text) → opening e t ≡ pos 0) → Booked opening new_mock
unfolding new_mock taken find_first any sum_where ◌+ℤ◌
new_mock-Booked_any opening zero = record {
  used = λ e t. rw (zero e t) refl;
  backed = λ e t h. refl;
}

pub new_mock-Booked : Booked (λ _ _. pos 0) new_mock
new_mock-Booked = new_mock-Booked_any (λ _ _. pos 0) (λ _ _. refl)

-- No balance is set, and the adapter is reset only if no hours were used at the start.
abbrev pub no_setting : (Text → Text → ℤ) → Conditions
no_setting opening = record {
  on_post = λ _. ⊤;
  on_balance = λ _. ⊥;
  on_reset = (e t : Text) → opening e t ≡ pos 0;
}

-- Over any interleaving of calls and settings in which no balance is set from outside, and the
-- adapter is reset only if no hours were used at the start, the used hours of each balance are those
-- of the start and the hours of the deductions that are in the list, and each deduction has a
-- balance.
pub run-Booked :
    (opening : Text → Text → ℤ) (es : List Event) (s : MockHcm)
    → Allowed (no_setting opening) es
    → Booked opening s
    → Booked opening (run es s)
run-Booked opening es s allowed h =
    run-keeps (Booked opening) (λ s s' e. Booked-same opening s s' e.0 e.2) (no_setting opening)
      (λ r now s _ _ k. apply_post-Booked opening r now s k)
      (λ r now s _ k. apply_cancel-Booked opening r now s k) (λ b s never _. absurd never)
      (new_mock-Booked_any opening) es s allowed h
