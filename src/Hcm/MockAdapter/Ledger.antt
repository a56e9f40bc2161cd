-- ===== src/Hcm/MockAdapter/Ledger.antt =====
-- The balances and the deductions of src/integration/hcm/mock-hcm-adapter.ts.
pub mod Books
unfoldable pub use Books.*
use readyon.Base.{
  ℤ, pos, ◌+ℤ◌, ◌-ℤ◌, ltb_ℤ, Bool, true, false, ◌&&◌, ◌==◌, Bool-cases, Option, none, some, List,
  [], ◌∷◌, ◌++◌, if◌then◌else◌, find_first, any, update_where, remove_first, sum_where, int_laws,
  arith, ◌≡◌, refl, inl, inr, set_entry-none, find_first-append_new, any-append_one, any-found,
  any-remove_first, sum_where-append_one, sum_where-remove_first, Option-cases,
}
use readyon.Types.{Text}
use readyon.Hcm.Port.{HcmPostTimeOffRequest, HcmCancelTimeOffRequest}
use readyon.Hcm.MockAdapter.State.{MockBalance, MockDeduction, MockHcm, is_balance_of}
use readyon.Hcm.MockAdapter.Changes.{
  provided_none, pair_eq, key_self, missing_key, other_unchanged, same_changed, changed_none,
}
use readyon.Hcm.MockAdapter.Calls.{
  Instant, has_reference, give_back, deduct_hours, reverse, deduction_of, provisioned, apply_post,
  add_used,
}

deducted-Booked :
    (opening : Text → Text → ℤ) (s : MockHcm) (b : MockBalance) (d : MockDeduction) (version : Text)
    → find_first (is_balance_of d.employee_id d.leave_type) s.balances ≡ some b
    → Booked opening s
    → Booked opening (record s {
      balances =
          update_where
            (is_balance_of d.employee_id d.leave_type)
            (add_used d.hours version)
            s.balances;
      deductions = s.deductions ++ d ∷ [];
    })
unfolding taken
deducted-Booked opening s b d version found h = record {
  used = λ e t.
      rw
        (
          used_by-changed d.employee_id d.leave_type d.hours (add_used d.hours version)
              (λ _ _ _. refl) (λ _. refl) s.balances b e t found,
          sum_where-append_one (is_deduction_of e t) (λ d. d.hours) s.deductions d,
          h.used e t,
        )
        (omega int_laws);
  backed = λ e t n.
      let before =
        changed_none d.employee_id d.leave_type (add_used d.hours version) (λ _ _ _. refl)
          s.balances e t n in
      rw (any-append_one (is_deduction_of e t) s.deductions d, h.backed e t before)
        (missing_key s.balances b d.employee_id d.leave_type e t found before);
}

pub deduct_hours-Booked :
    (opening : Text → Text → ℤ) (r : HcmPostTimeOffRequest) (now : Instant) (b : MockBalance)
    (s : MockHcm)
    → find_first (is_balance_of r.employee_id r.leave_type) s.balances ≡ some b
    → Booked opening s
    → Booked opening (deduct_hours r now b s).1
unfolding deduct_hours
deduct_hours-Booked opening r now b s found h =
    elim (Bool-cases (ltb_ℤ (b.total_balance -ℤ b.used_balance) r.hours)) [
      | inl c ↦ rw c h
      | inr c ↦ rw c (
          Booked-same opening _ _ refl refl
            (deducted-Booked opening s b (deduction_of r now) now.iso found h))
    ]

provided-Booked :
    (opening : Text → Text → ℤ) (s : MockHcm) (b : MockBalance)
    → b.used_balance ≡ pos 0
    → Booked opening s
    → Booked opening (record s { balances = s.balances ++ b ∷ [] })
provided-Booked opening s b z h = record {
  used = λ e t. rw (used_by-provided (is_balance_of e t) s.balances b z) (h.used e t);
  backed = λ e t n. h.backed e t (provided_none (is_balance_of e t) s.balances b n);
}

pub apply_post-Booked :
    (opening : Text → Text → ℤ) (r : HcmPostTimeOffRequest) (now : Instant) (s : MockHcm)
    → Booked opening s
    → Booked opening (apply_post r now s).1
unfolding apply_post
apply_post-Booked opening r now s h =
    elim (Option-cases (find_first (is_balance_of r.employee_id r.leave_type) s.balances)) [
      | inl n ↦
          let b = provisioned r.employee_id r.leave_type now in
          rw
            (
              n,
              set_entry-none (is_balance_of r.employee_id r.leave_type) s.balances b n,
              apply_post,
            )
            (deduct_hours-Booked opening r now b _
              (find_first-append_new (is_balance_of r.employee_id r.leave_type) s.balances b n
                (key_self r.employee_id r.leave_type))
              (provided-Booked opening s b refl h))
      | inr (b, found) ↦ rw (found, apply_post) (deduct_hours-Booked opening r now b s found h)
    ]

sub_as_add : (a b : ℤ) → a -ℤ b ≡ a +ℤ (pos 0 -ℤ b)
sub_as_add a b = omega int_laws

refund :
    (c : Bool) (o r h : ℤ)
    → o +ℤ (r +ℤ (if c then h else pos 0)) +ℤ (if c then pos 0 -ℤ h else pos 0) ≡ o +ℤ r
refund true o r h = omega int_laws
refund false o r h = omega int_laws

-- A deduction that is in the list has its balance.
backed_some :
    (opening : Text → Text → ℤ) (s : MockHcm) (reference : Option Text) (d : MockDeduction)
    → find_first (has_reference reference) s.deductions ≡ some d
    → Booked opening s
    → (b : MockBalance) × (find_first (is_balance_of d.employee_id d.leave_type) s.balances
        ≡ some b)
backed_some opening s reference d found h =
    elim (Option-cases (find_first (is_balance_of d.employee_id d.leave_type) s.balances)) [
      | inl n ↦
          let there =
            any-found (has_reference reference) (is_deduction_of d.employee_id d.leave_type)
              s.deductions d found (key_self d.employee_id d.leave_type) in
          let missing = h.backed d.employee_id d.leave_type n in ground arith
      | inr p ↦ p
    ]

reversed-Booked :
    (opening : Text → Text → ℤ) (s : MockHcm) (reference : Option Text) (d : MockDeduction)
    (version : Text)
    → find_first (has_reference reference) s.deductions ≡ some d
    → Booked opening s
    → Booked opening (record s {
      balances =
          update_where
            (is_balance_of d.employee_id d.leave_type)
            (give_back d.hours version)
            s.balances;
      deductions = remove_first (has_reference reference) s.deductions;
    })
unfolding taken
reversed-Booked opening s reference d version found h =
    let (b, there) = backed_some opening s reference d found h in
    record {
      used = λ e t.
          let removed =
            sum_where-remove_first (is_deduction_of e t) (has_reference reference) (λ d. d.hours)
              s.deductions d found in
          rw
            (
              used_by-changed d.employee_id d.leave_type (pos 0 -ℤ d.hours)
                  (give_back d.hours version) (λ _ _ _. refl)
                  (λ x. sub_as_add x.used_balance d.hours) s.balances b e t there,
              h.used e t,
              removed,
            )
            (refund (is_deduction_of e t d) (opening e t)
              (sum_where (is_deduction_of e t) (λ d. d.hours)
                (remove_first (has_reference reference) s.deductions))
              d.hours);
      backed = λ e t n.
          any-remove_first (has_reference reference) (is_deduction_of e t) s.deductions (
            h.backed e t (
              changed_none d.employee_id d.leave_type (give_back d.hours version) (λ _ _ _. refl)
                s.balances e t n));
    }

pub reverse-Booked :
    (opening : Text → Text → ℤ) (r : HcmCancelTimeOffRequest) (now : Instant) (d : MockDeduction)
    (s : MockHcm)
    → find_first (has_reference r.hcm_reference_id) s.deductions ≡ some d
    → Booked opening s
    → Booked opening (reverse r now d s).1
unfolding reverse
reverse-Booked opening r now d s found h =
    Booked-same opening _ _ refl refl
      (reversed-Booked opening s r.hcm_reference_id d now.iso found h)
