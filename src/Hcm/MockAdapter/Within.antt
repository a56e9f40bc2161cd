-- ===== src/Hcm/MockAdapter/Within.antt =====
-- What changes of the list of balances of src/integration/hcm/mock-hcm-adapter.ts keep in bounds.
use readyon.Base.{
  set_entry, true, ◌⊎◌, ◌≤ℤ◌, Bool, ◌&&◌, ◌==◌, Bool-cases, some, List, [], ◌∷◌, ◌++◌, find_first,
  any, update_where, arith, ◌≡◌, refl, inl, inr, Option-cases, find_first-append_new,
  find_first-append_some, find_first-append_other, sym, ◌∙◌,
}
use readyon.Types.{Text}
use readyon.Hcm.MockAdapter.State.{MockBalance, is_balance_of}
use readyon.Hcm.MockAdapter.Changes.{pair_eq, same_changed, other_unchanged}

-- Every balance that the adapter reads has at most its total used.
abbrev pub Within : List MockBalance → Type 0
Within bs =
    (e t : Text) (b : MockBalance)
    → find_first (is_balance_of e t) bs ≡ some b
    → b.used_balance ≤ℤ b.total_balance

some_eq : (x y : MockBalance) → some x ≡ some y → x ≡ y
some_eq x y h = ground arith

abbrev pub KeepsKey : (MockBalance → MockBalance) → Type 0
KeepsKey g = (e t : Text) (x : MockBalance) → is_balance_of e t (g x) ≡ is_balance_of e t x

pub changed-Within :
    (e t : Text) (g : MockBalance → MockBalance)
    → KeepsKey g
    → (bs : List MockBalance) (b : MockBalance) → find_first (is_balance_of e t) bs ≡ some b
    → (g b).used_balance ≤ℤ (g b).total_balance
    → Within bs
    → Within (update_where (is_balance_of e t) g bs)
changed-Within e t g keeps bs b found bound h e' t' b' found' =
    elim (Bool-cases (e == e' && t == t')) [
      | inl s ↦
          let (u, v) = pair_eq e t e' t' s in
          let changed = same_changed e t g keeps bs b found in
          let same = some_eq (g b) b' (sym changed ∙ (rw (← u, ← v) at found')) in rw (← same) bound
      | inr n ↦ h e' t' b' (rw (other_unchanged e t g keeps bs e' t' n) at found')
    ]

pub provided-Within :
    (bs : List MockBalance) (b : MockBalance)
    → b.used_balance ≤ℤ b.total_balance
    → Within bs
    → Within (bs ++ b ∷ [])
provided-Within bs b bound h e t b' found =
    elim (Option-cases (find_first (is_balance_of e t) bs)) [
      | inl n ↦ elim (Bool-cases (is_balance_of e t b)) [
        | inl c ↦
            let last = find_first-append_new (is_balance_of e t) bs b n c in
            let same = some_eq b b' (sym last ∙ found) in rw (← same) bound
        | inr c ↦ h e t b' (rw (find_first-append_other (is_balance_of e t) bs b c) at found)
      ]
      | inr (x, there) ↦
          let first = find_first-append_some (is_balance_of e t) bs (b ∷ []) x there in
          h e t b' (there ∙ sym first ∙ found)
    ]

same_key :
    (e t : Text) (b x : MockBalance)
    → is_balance_of b.employee_id b.leave_type x ≡ true
    → is_balance_of e t x ≡ is_balance_of e t b
same_key e t b x h =
    let (u, v) = pair_eq x.employee_id x.leave_type b.employee_id b.leave_type h in rw (u, v) refl

-- A row that is found after a replacement is the new one, or was found before.
replaced_cases :
    (p q : MockBalance → Bool) (b b' : MockBalance)
    → ((x : MockBalance) → p x ≡ true → q x ≡ q b)
    → (bs : List MockBalance) → find_first q (update_where p (λ _. b) bs) ≡ some b'
    → (b ≡ b') ⊎ (find_first q bs ≡ some b')
unfolding find_first update_where
replaced_cases p q b b' same [] h = inr h
replaced_cases p q b b' same (x ∷ bs) h = elim (Bool-cases (p x)) [
  | inl hit ↦ elim (Bool-cases (q b)) [
    | inl new ↦ inl (some_eq b b' (rw (hit, new) at h))
    | inr old ↦ rw (same x hit, old) (replaced_cases p q b b' same bs (rw (hit, old) at h))
  ]
  | inr other ↦ elim (Bool-cases (q x)) [
    | inl first ↦ inr (rw first (rw (other, first) at h))
    | inr later ↦ rw later (replaced_cases p q b b' same bs (rw (other, later) at h))
  ]
]

pub set-Within :
    (b : MockBalance) (bs : List MockBalance)
    → b.used_balance ≤ℤ b.total_balance
    → Within bs
    → Within (set_entry (is_balance_of b.employee_id b.leave_type) b bs)
unfolding set_entry
set-Within b bs bound h = elim (Bool-cases (any (is_balance_of b.employee_id b.leave_type) bs)) [
  | inl there ↦ rw there λ e t b' found.
      elim (replaced_cases (is_balance_of b.employee_id b.leave_type) (is_balance_of e t) b b'
        (same_key e t b) bs found) [ inl new ↦ rw (← new) bound | inr old ↦ h e t b' old ]
  | inr absent ↦ rw absent (provided-Within bs b bound h)
]
