-- ===== src/Hcm/MockAdapter/Ledger/Books.antt =====
-- src/integration/hcm/mock-hcm-adapter.ts: used hours and the deductions behind them.
use readyon.Base.{
  ℤ, pos, ◌+ℤ◌, Bool, false, ◌&&◌, ◌==◌, Bool-cases, Option, none, some, List, [], ◌∷◌, ◌++◌,
  if◌then◌else◌, find_first, any, update_where, sum_where, int_laws, arith, ◌≡◌, inl, inr,
}
use readyon.Types.{Text}
use readyon.Hcm.MockAdapter.State.{MockBalance, MockDeduction, MockHcm, is_balance_of}
use readyon.Hcm.MockAdapter.Changes.{pair_eq, other_unchanged, same_changed}

abbrev pub is_deduction_of : Text → Text → MockDeduction → Bool
is_deduction_of e t d = d.employee_id == e && d.leave_type == t

-- The hours of the deductions that an employee has for a leave type.
unfoldable pub taken : Text → Text → List MockDeduction → ℤ
taken e t ds = sum_where (is_deduction_of e t) (λ d. d.hours) ds

abbrev pub used_by : Option MockBalance → ℤ
used_by none = pos 0
used_by (some b) = b.used_balance

-- The balances say what was used at first and is now deducted, and each deduction has a balance.
pub record Booked (opening : Text → Text → ℤ) (s : MockHcm) : Type 0 where
  pub used :
      (e t : Text)
      → used_by (find_first (is_balance_of e t) s.balances) ≡ opening e t +ℤ taken e t s.deductions
  pub backed :
      (e t : Text)
      → find_first (is_balance_of e t) s.balances ≡ none
      → any (is_deduction_of e t) s.deductions ≡ false

-- Only the balances and the deductions count.
pub Booked-same :
    (opening : Text → Text → ℤ) (s s' : MockHcm)
    → s'.balances ≡ s.balances
    → s'.deductions ≡ s.deductions
    → Booked opening s
    → Booked opening s'
Booked-same opening s s' eb ed h = record {
  used = λ e t. rw (eb, ed) (h.used e t);
  backed = λ e t n. rw ed (h.backed e t (rw eb at n));
}

-- A balance that starts with no used hours leaves those of all others alone.
pub used_by-provided :
    (p : MockBalance → Bool) (bs : List MockBalance) (b : MockBalance)
    → b.used_balance ≡ pos 0
    → used_by (find_first p (bs ++ b ∷ [])) ≡ used_by (find_first p bs)
unfolding find_first
used_by-provided p [] b h = ground arith
used_by-provided p (x ∷ bs) b h = ground (arith, used_by-provided p bs b h)

-- A change of one balance that keeps its employee and leave type, and adds to its used hours.
module _ (e t : Text) (delta : ℤ) (g : MockBalance → MockBalance)
    (keeps : (e' t' : Text) (x : MockBalance) → is_balance_of e' t' (g x) ≡ is_balance_of e' t' x)
    (adds : (x : MockBalance) → (g x).used_balance ≡ x.used_balance +ℤ delta) where
  pub used_by-changed :
      (bs : List MockBalance) (b : MockBalance) (e' t' : Text)
      → find_first (is_balance_of e t) bs ≡ some b
      → used_by (find_first (is_balance_of e' t') (update_where (is_balance_of e t) g bs))
        ≡ used_by (find_first (is_balance_of e' t') bs)
          +ℤ (if e == e' && t == t' then delta else pos 0)
  used_by-changed bs b e' t' h = elim (Bool-cases (e == e' && t == t')) [
    | inl s ↦
        let (u, v) = pair_eq e t e' t' s in
        rw (s, ← u, ← v, same_changed e t g keeps bs b h, h) (adds b)
    | inr n ↦ rw (n, other_unchanged e t g keeps bs e' t' n) (omega int_laws)
  ]
