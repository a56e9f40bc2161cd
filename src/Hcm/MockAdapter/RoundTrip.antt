-- ===== src/Hcm/MockAdapter/RoundTrip.antt =====
-- A post and its cancellation in src/integration/hcm/mock-hcm-adapter.ts.
use readyon.Base.{
  ℤ, pos, ◌+ℤ◌, ◌-ℤ◌, ltb_ℤ, Bool, true, false, ◌&&◌, ◌==◌, Bool-cases, none, some, List, [], ◌∷◌,
  ◌++◌, if◌then◌else◌, find_first, any, int_laws, ◌≡◌, refl, sym, inl, inr, Option-cases,
  set_entry-none, find_first-append_none, find_first-append_new, remove_first-append_one, ==_self,
}
use readyon.Types.{Text}
use readyon.Hcm.Port.{HcmPostTimeOffRequest, HcmCancelTimeOffRequest}
use readyon.Hcm.MockAdapter.Faults.{
  Check, passes, fires, FailureConfig, check_failure, posting, canceling,
}
use readyon.Hcm.MockAdapter.State.{
  MockBalance, MockResponse, MockHcm, is_stored_under, is_balance_of,
}
use readyon.Hcm.MockAdapter.Calls.{
  Instant, Ended, replies, throws, has_reference, add_used, give_back, deduction_of, deduct_hours,
  apply_post, reverse, apply_cancel, answer_post, answer_cancel, after_check, provisioned,
}
use readyon.Hcm.MockAdapter.Changes.{key_self, same_changed}
use readyon.Hcm.MockAdapter.Ledger.{used_by, used_by-changed, used_by-provided}

-- What a post has done that replied: a deduction is added, and its hours are used.
abbrev Deducted : HcmPostTimeOffRequest → Instant → MockHcm → Ended MockResponse → Type 0
Deducted r now before (throws e, s) = Unit
Deducted r now before (replies a, s) =
    (s.deductions ≡ before.deductions ++ deduction_of r now ∷ [])
    × ((b : MockBalance) × (find_first (is_balance_of r.employee_id r.leave_type) s.balances
          ≡ some b))
    × ((e t : Text)
        → used_by (find_first (is_balance_of e t) s.balances)
          ≡ used_by (find_first (is_balance_of e t) before.balances)
            +ℤ (if r.employee_id == e && r.leave_type == t then r.hours else pos 0))

deduct_hours-Deducted :
    (r : HcmPostTimeOffRequest) (now : Instant) (b : MockBalance) (s : MockHcm)
    → find_first (is_balance_of r.employee_id r.leave_type) s.balances ≡ some b
    → Deducted r now s (deduct_hours r now b s)
unfolding deduct_hours
deduct_hours-Deducted r now b s found =
    elim (Bool-cases (ltb_ℤ (b.total_balance -ℤ b.used_balance) r.hours)) [
      | inl c ↦ rw (c, Deducted) tt
      | inr c ↦
          rw (c, Deducted)
            (
              refl,
              (
                add_used r.hours now.iso b,
                same_changed r.employee_id r.leave_type (add_used r.hours now.iso) (λ _ _ _. refl)
                    s.balances b found,
              ),
              λ e t.
                  used_by-changed r.employee_id r.leave_type r.hours (add_used r.hours now.iso)
                    (λ _ _ _. refl) (λ _. refl) s.balances b e t found,
            )
    ]

-- The balance that is provided for changes nothing of what is used.
before_provided :
    (r : HcmPostTimeOffRequest) (now : Instant) (s : MockHcm) (b : MockBalance)
    → b.used_balance ≡ pos 0
    → (o : Ended MockResponse) → Deducted r now (record s { balances = s.balances ++ b ∷ [] }) o
    → Deducted r now s o
before_provided r now s b z (throws e, s') h = tt
before_provided r now s b z (replies a, s') (added, there, changed) = (
  added,
  there,
  λ e t. rw (sym (used_by-provided (is_balance_of e t) s.balances b z)) (changed e t),
)

apply_post-Deducted :
    (r : HcmPostTimeOffRequest) (now : Instant) (s : MockHcm)
    → Deducted r now s (apply_post r now s)
unfolding apply_post
apply_post-Deducted r now s =
    elim (Option-cases (find_first (is_balance_of r.employee_id r.leave_type) s.balances)) [
      | inl n ↦
          let b = provisioned r.employee_id r.leave_type now in
          rw
            (
              n,
              set_entry-none (is_balance_of r.employee_id r.leave_type) s.balances b n,
              apply_post,
            )
            (before_provided r now s b refl _ (
              deduct_hours-Deducted r now b _ (
                find_first-append_new (is_balance_of r.employee_id r.leave_type) s.balances b n
                  (key_self r.employee_id r.leave_type))))
      | inr (b, found) ↦ rw (found, apply_post) (deduct_hours-Deducted r now b s found)
    ]

answer_post-Deducted :
    (r : HcmPostTimeOffRequest) (now : Instant) (s : MockHcm)
    → find_first (is_stored_under r.idempotency_key) s.idempotency_store ≡ none
    → Deducted r now s (answer_post r now s)
unfolding answer_post
answer_post-Deducted r now s missing =
    rw (missing, answer_post) (checked (check_failure posting r.employee_id s.failure_configs) refl)
  where
    checked :
        (c : Check)
        → check_failure posting r.employee_id s.failure_configs ≡ c
        → Deducted r now s (after_check posting r.employee_id r.correlation_id (apply_post r now) s)
    checked (passes cs) q =
        rw (q, after_check) (apply_post-Deducted r now (record s { failure_configs = cs }))
    checked (fires mode cs) q = rw (q, after_check, Deducted) tt

-- The state has what the post of `r` left: the used hours of `before`, and no deduction more.
abbrev pub Restored : MockHcm → Ended MockResponse → Type 0
Restored before (throws e, s) = ⊥
Restored before (replies a, s) =
    (s.deductions ≡ before.deductions)
    × ((e t : Text)
        → used_by (find_first (is_balance_of e t) s.balances)
          ≡ used_by (find_first (is_balance_of e t) before.balances))

refunded :
    (c : Bool) (u h : ℤ) → u +ℤ (if c then h else pos 0) +ℤ (if c then pos 0 -ℤ h else pos 0) ≡ u
refunded true u h = omega int_laws
refunded false u h = omega int_laws

sub_as_add : (a b : ℤ) → a -ℤ b ≡ a +ℤ (pos 0 -ℤ b)
sub_as_add a b = omega int_laws

apply_cancel-Restored :
    (r : HcmPostTimeOffRequest) (now : Instant) (a : MockResponse) (before s : MockHcm)
    → any (has_reference (some now.reference_id)) before.deductions ≡ false
    → Deducted r now before (replies a, s)
    → (q : HcmCancelTimeOffRequest) (later : Instant) → q.hcm_reference_id ≡ some now.reference_id
    → Restored before (apply_cancel q later s)
unfolding apply_cancel
apply_cancel-Restored r now a before s fresh (added, (b, there), changed) q later reference =
    let d = deduction_of r now in
    let mine = has_reference (some now.reference_id) in
    rw
      (
        reference,
        added,
        find_first-append_none mine before.deductions d fresh (==_self now.reference_id),
        apply_cancel,
        reverse,
        Restored,
      )
      (
        rw (reference, added)
            (remove_first-append_one mine before.deductions d fresh (==_self now.reference_id)),
        λ e t.
            rw
              (
                used_by-changed r.employee_id r.leave_type (pos 0 -ℤ r.hours)
                    (give_back r.hours later.iso) (λ _ _ _. refl)
                    (λ x. sub_as_add x.used_balance r.hours) s.balances b e t there,
                changed e t,
              )
              (refunded (r.employee_id == e && r.leave_type == t)
                (used_by (find_first (is_balance_of e t) before.balances)) r.hours),
      )

-- When a post has replied that was no duplicate, with a reference that no deduction had before, then
-- its cancellation under a key that is not used, by that reference and with no failure injected,
-- replies; it leaves the deductions that were there before the post, and every balance has the
-- used hours of that time.
pub cancel_post :
    (r : HcmPostTimeOffRequest) (now : Instant) (s : MockHcm) (a : MockResponse) (after : MockHcm)
    → find_first (is_stored_under r.idempotency_key) s.idempotency_store ≡ none
    → any (has_reference (some now.reference_id)) s.deductions ≡ false
    → answer_post r now s ≡ (replies a, after)
    → (q : HcmCancelTimeOffRequest) (later : Instant) (left : List FailureConfig)
    → find_first (is_stored_under q.idempotency_key) after.idempotency_store ≡ none
    → q.hcm_reference_id ≡ some now.reference_id
    → check_failure canceling q.employee_id after.failure_configs ≡ passes left
    → Restored s (answer_cancel q later after)
unfolding answer_cancel
cancel_post r now s a after missing fresh e q later left unused reference passing =
    let done = rw e at (answer_post-Deducted r now s missing) in
    rw (unused, answer_cancel, passing, after_check)
      (apply_cancel-Restored r now a s (record after { failure_configs = left }) fresh done q later
        reference)
