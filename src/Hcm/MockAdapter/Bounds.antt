-- ===== src/Hcm/MockAdapter/Bounds.antt =====
-- The bounds of the balances of src/integration/hcm/mock-hcm-adapter.ts.
use readyon.Base.{
  ⊤, ℤ, pos, ◌+ℤ◌, ◌-ℤ◌, ◌≤ℤ◌, ltb_ℤ, Bool, false, Bool-cases, some, List, [], ◌∷◌, find_first, any,
  int_laws, arith, ◌≡◌, refl, inl, inr, Option-cases, any-append_one, any-remove_first,
  update_where-none, find_first-append_new, set_entry-none, ≤ℤ→ltb_ℤ,
}
use readyon.Types.{Text}
use readyon.Hcm.Port.{HcmPostTimeOffRequest, HcmCancelTimeOffRequest}
use readyon.Hcm.MockAdapter.State.{
  MockBalance, MockDeduction, MockHcm, is_balance_of, new_mock, set_balance,
}
use readyon.Hcm.MockAdapter.Calls.{
  Instant, has_reference, add_used, give_back, apply_post, apply_cancel, deduct_hours, reverse,
  provisioned, deduction_of,
}
use readyon.Hcm.MockAdapter.Steps.{Event, run}
use readyon.Hcm.MockAdapter.Within.{changed-Within, provided-Within, set-Within}
use readyon.Hcm.MockAdapter.Changes.{key_self}
use readyon.Hcm.MockAdapter.Invariants.{Same, Conditions, Allowed, run-keeps}

abbrev is_negative : MockDeduction → Bool
is_negative d = ltb_ℤ d.hours (pos 0)

-- No balance is overdrawn, and no deduction gives hours.
pub record Funded (s : MockHcm) : Type 0 where
  pub within :
      (e t : Text) (b : MockBalance)
      → find_first (is_balance_of e t) s.balances ≡ some b
      → b.used_balance ≤ℤ b.total_balance
  pub taking : any is_negative s.deductions ≡ false

Funded-Same : (s s' : MockHcm) → Same s s' → Funded s → Funded s'
Funded-Same s s' q h = record {
  within = λ e t b found. h.within e t b (rw q.0 at found);
  taking = rw q.2 h.taking;
}

room : (total used hours : ℤ) → ltb_ℤ (total -ℤ used) hours ≡ false → used +ℤ hours ≤ℤ total
room total used hours h = grind int_laws

deduct_hours-Funded :
    (r : HcmPostTimeOffRequest) (now : Instant) (b : MockBalance) (s : MockHcm)
    → pos 0 ≤ℤ r.hours
    → find_first (is_balance_of r.employee_id r.leave_type) s.balances ≡ some b
    → Funded s
    → Funded (deduct_hours r now b s).1
unfolding deduct_hours
deduct_hours-Funded r now b s positive found h =
    elim (Bool-cases (ltb_ℤ (b.total_balance -ℤ b.used_balance) r.hours)) [
      | inl c ↦ rw c h
      | inr c ↦ rw c (record {
        within =
            changed-Within r.employee_id r.leave_type (add_used r.hours now.iso) (λ _ _ _. refl)
              s.balances b found (room b.total_balance b.used_balance r.hours c) h.within;
        taking =
            rw (any-append_one is_negative s.deductions (deduction_of r now), h.taking)
              (≤ℤ→ltb_ℤ (pos 0) r.hours positive);
      })
    ]

apply_post-Funded :
    (r : HcmPostTimeOffRequest) (now : Instant) (s : MockHcm)
    → pos 0 ≤ℤ r.hours
    → Funded s
    → Funded (apply_post r now s).1
unfolding apply_post
apply_post-Funded r now s positive h =
    elim (Option-cases (find_first (is_balance_of r.employee_id r.leave_type) s.balances)) [
      | inl n ↦
          let b = provisioned r.employee_id r.leave_type now in
          rw
            (
              n,
              set_entry-none (is_balance_of r.employee_id r.leave_type) s.balances b n,
              apply_post,
            )
            (deduct_hours-Funded r now b _ positive
              (find_first-append_new (is_balance_of r.employee_id r.leave_type) s.balances b n
                (key_self r.employee_id r.leave_type))
              (record {
                within = provided-Within s.balances b (ground arith) h.within;
                taking = h.taking;
              }))
      | inr (b, found) ↦ rw (found, apply_post) (deduct_hours-Funded r now b s positive found h)
    ]

taking_hours :
    (p : MockDeduction → Bool) (ds : List MockDeduction) (d : MockDeduction)
    → find_first p ds ≡ some d
    → any is_negative ds ≡ false
    → pos 0 ≤ℤ d.hours
unfolding find_first any
taking_hours p [] d found h = ground arith
taking_hours p (x ∷ ds) d found h = ground (arith, taking_hours p ds d)

less_used : (total used hours : ℤ) → pos 0 ≤ℤ hours → used ≤ℤ total → used -ℤ hours ≤ℤ total
less_used total used hours h k = grind int_laws

reverse-Funded :
    (r : HcmCancelTimeOffRequest) (now : Instant) (d : MockDeduction) (s : MockHcm)
    → find_first (has_reference r.hcm_reference_id) s.deductions ≡ some d
    → Funded s
    → Funded (reverse r now d s).1
unfolding reverse
reverse-Funded r now d s found h = record {
  within = elim (Option-cases (find_first (is_balance_of d.employee_id d.leave_type) s.balances)) [
    | inl n ↦
        rw
          (update_where-none (is_balance_of d.employee_id d.leave_type) (give_back d.hours now.iso)
            s.balances n)
          h.within
    | inr (b, there) ↦
        changed-Within d.employee_id d.leave_type (give_back d.hours now.iso) (λ _ _ _. refl)
          s.balances b there
          (less_used b.total_balance b.used_balance d.hours
            (taking_hours (has_reference r.hcm_reference_id) s.deductions d found h.taking)
            (h.within d.employee_id d.leave_type b there))
          h.within
  ];
  taking = any-remove_first (has_reference r.hcm_reference_id) is_negative s.deductions h.taking;
}

apply_cancel-Funded :
    (r : HcmCancelTimeOffRequest) (now : Instant) (s : MockHcm)
    → Funded s
    → Funded (apply_cancel r now s).1
unfolding apply_cancel
apply_cancel-Funded r now s h =
    elim (Option-cases (find_first (has_reference r.hcm_reference_id) s.deductions)) [
      | inl n ↦ rw (n, apply_cancel) h
      | inr (d, found) ↦ rw (found, apply_cancel) (reverse-Funded r now d s found h)
    ]

abbrev pub IsPositive : HcmPostTimeOffRequest → Type 0
IsPositive r = pos 0 ≤ℤ r.hours

set_balance-Funded :
    (b : MockBalance) (s : MockHcm)
    → b.used_balance ≤ℤ b.total_balance
    → Funded s
    → Funded (set_balance b s)
unfolding set_balance
set_balance-Funded b s bound h = record {
  within = set-Within b s.balances bound h.within;
  taking = h.taking;
}

pub new_mock-Funded : Funded new_mock
unfolding new_mock find_first any
new_mock-Funded = record { within = λ e t b h. ground arith; taking = refl }

-- No request posts negative hours, and no balance is set to be overdrawn.
abbrev pub within_bounds : Conditions
within_bounds = record {
  on_post = IsPositive;
  on_balance = λ b. b.used_balance ≤ℤ b.total_balance;
  on_reset = ⊤;
}

-- If no balance is overdrawn, no deduction gives hours, no request posts negative hours, and no
-- balance is set to be overdrawn, then whatever happens in the adapter, in any interleaving of calls,
-- settings and resets, no balance is overdrawn.
pub run-Funded :
    (es : List Event) (s : MockHcm) → Allowed within_bounds es → Funded s → Funded (run es s)
run-Funded es s =
    run-keeps Funded Funded-Same within_bounds (λ r now s q _ h. apply_post-Funded r now s q h)
      (λ r now s _ h. apply_cancel-Funded r now s h) set_balance-Funded (λ _. new_mock-Funded) es s
