-- ===== src/Hcm/MockAdapter/Changes.antt =====
-- What a change of one balance in src/integration/hcm/mock-hcm-adapter.ts does to the others.
use readyon.Base.{
  Bool, true, false, ◌&&◌, ◌==◌, Bool-cases, none, some, List, [], ◌∷◌, ◌++◌, find_first,
  update_where, ◌≡◌, refl, inl, inr, arith,
}
use readyon.Types.{Text}
use readyon.Hcm.MockAdapter.State.{MockBalance, is_balance_of}

pub pair_eq : (e t e' t' : Text) → (e == e' && t == t') ≡ true → (e ≡ e') × (t ≡ t')
pair_eq e t e' t' h = ground arith

pub key_self : (e t : Text) → (e == e && t == t) ≡ true
key_self e t = ground arith

pub missing_key :
    (bs : List MockBalance) (b : MockBalance) (e t e' t' : Text)
    → find_first (is_balance_of e t) bs ≡ some b
    → find_first (is_balance_of e' t') bs ≡ none
    → (e == e' && t == t') ≡ false
missing_key bs b e t e' t' h n = elim (Bool-cases (e == e' && t == t')) [
  | inl s ↦ let (u, v) = pair_eq e t e' t' s in ground arith
  | inr f ↦ f
]

other_key :
    (e t e' t' : Text) (x : MockBalance)
    → (e == e' && t == t') ≡ false
    → is_balance_of e t x ≡ true
    → is_balance_of e' t' x ≡ false
other_key e t e' t' x h k = ground arith

pub provided_none :
    (p : MockBalance → Bool) (bs : List MockBalance) (b : MockBalance)
    → find_first p (bs ++ b ∷ []) ≡ none
    → find_first p bs ≡ none
unfolding find_first
provided_none p [] b h = refl
provided_none p (x ∷ bs) b h = ground (arith, provided_none p bs b)

-- A change of one balance that keeps its employee and leave type.
module _ (e t : Text) (g : MockBalance → MockBalance)
    (keeps : (e' t' : Text) (x : MockBalance)
      → is_balance_of e' t' (g x) ≡ is_balance_of e' t' x) where
  pub changed_none :
      (bs : List MockBalance) (e' t' : Text)
      → find_first (is_balance_of e' t') (update_where (is_balance_of e t) g bs) ≡ none
      → find_first (is_balance_of e' t') bs ≡ none
  unfolding find_first update_where
  changed_none [] e' t' h = refl
  changed_none (x ∷ bs) e' t' h = ground (arith, keeps e' t' x, changed_none bs e' t')

  pub other_unchanged :
      (bs : List MockBalance) (e' t' : Text)
      → (e == e' && t == t') ≡ false
      → find_first (is_balance_of e' t') (update_where (is_balance_of e t) g bs)
        ≡ find_first (is_balance_of e' t') bs
  unfolding find_first update_where
  other_unchanged [] e' t' h = refl
  other_unchanged (x ∷ bs) e' t' h =
      let other = other_key e t e' t' x h in
      ground (arith, keeps e' t' x, other, other_unchanged bs e' t' h)

  pub same_changed :
      (bs : List MockBalance) (b : MockBalance)
      → find_first (is_balance_of e t) bs ≡ some b
      → find_first (is_balance_of e t) (update_where (is_balance_of e t) g bs) ≡ some (g b)
  unfolding find_first update_where
  same_changed [] b h = ground arith
  same_changed (x ∷ bs) b h = ground (arith, keeps e t x, same_changed bs b)
