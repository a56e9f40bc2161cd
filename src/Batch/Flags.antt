-- ===== src/Batch/Flags.antt =====
-- The loop of `BatchSyncService.processItem` over the active holds.
use readyon.Base.{
  ◌≡◌, refl, ◌==◌, Option, none, some, List, [], ◌∷◌, ℕ, ℤ, arith, Bool-cases, Option-cases, inl,
  inr, ◌⊎◌, ==_iff, find_first, ◌∙◌,
}
use readyon.Types.{Text, TimeOffRequestRow, BalanceHoldRow, same_status, reconciliation_required}
use readyon.Store.{World, Db, Ensures, now_iso}
use readyon.Request.Repository.{find_by_id, set_status, set_statuses, no_extra}
use readyon.Request.Updates.{
  update_status_lem, find_by_id-set_statuses, find_by_id-same, find_by_id-set_statuses-other,
}
use readyon.Batch.Sync.{flag_request, flag_requests}
use readyon.Store.Returns.{and_then, ensure_more}
use readyon.Audit

-- Everything but the requests and the audit log is as before.
abbrev pub Framed : World → World → Type 0
Framed w w' =
    (w'.db.projections ≡ w.db.projections)
    × (w'.db.holds ≡ w.db.holds)
    × (w'.db.entries ≡ w.db.entries)
    × (w'.db.batches ≡ w.db.batches)
    × (w'.db.keys ≡ w.db.keys)

abbrev pub NeedsReview : Option TimeOffRequestRow → Type 0
NeedsReview none = Unit
NeedsReview (some r) = r.status ≡ reconciliation_required

-- The request, where there is one, is left to a person.
abbrev pub IsFlagged : Text → Db → Type 0
IsFlagged id db = NeedsReview (find_by_id id db)

abbrev pub AllFlagged : List BalanceHoldRow → Db → Type 0
AllFlagged [] db = Unit
AllFlagged (h ∷ hs) db = IsFlagged h.request_id db × AllFlagged hs db

-- What one round does to the requests.
abbrev pub Marked : Text → World → World → Type 0
Marked id w w' =
    (w'.db.requests ≡ w.db.requests)
    ⊎ ((v : ℕ) × (w'.db.requests
          ≡ (set_statuses id reconciliation_required v no_extra (now_iso w) w.db).requests))

pub review_after :
    (id : Text) (db db' : Db) (r : TimeOffRequestRow)
    → db.requests ≡ db'.requests
    → find_by_id id db ≡ some r
    → r.status ≡ reconciliation_required
    → IsFlagged id db'
review_after id db db' r same found marked = rw (← find_by_id-same id db db' same) (rw found marked)

flag_request-Marked :
    (n : ℤ) (id : Text) (w : World)
    → Ensures
        (λ _ w'. Framed w w' × Marked id w w' × IsFlagged id w'.db)
        (flag_request n id (find_by_id id w.db) w)
unfolding flag_request Audit.log set_statuses
flag_request-Marked n id w = elim (Option-cases (find_by_id id w.db)) [
  | inl gone ↦ rw (gone, Ensures) ((refl, refl, refl, refl, refl), inl refl, rw gone tt)
  | inr (r, found) ↦ elim (Bool-cases (same_status r.status reconciliation_required)) [
    | inl marked ↦
        rw (found, marked, Ensures)
          ((refl, refl, refl, refl, refl), inl refl, rw found (ground arith))
    | inr unmarked ↦
        rw
          (
            found,
            unmarked,
            update_status_lem id reconciliation_required r.version no_extra w r found refl,
            Ensures,
          )
          (
            (refl, refl, refl, refl, refl),
            inr (r.version, refl),
            review_after id
                (set_statuses id reconciliation_required r.version no_extra (now_iso w) w.db) _
                (set_status reconciliation_required no_extra (now_iso w) r) refl
                (find_by_id-set_statuses id reconciliation_required r.version no_extra w r found
                  refl)
                refl,
          )
  ]
]

abbrev pub lookup : Text → List TimeOffRequestRow → Option TimeOffRequestRow
lookup id rows = find_first (λ r. r.id == id) rows

-- Each request is found as it was, or is flagged.
abbrev pub OnlyFlags : World → World → Type 0
OnlyFlags w w' =
    (j : Text)
    → (lookup j w'.db.requests ≡ lookup j w.db.requests) ⊎ NeedsReview (lookup j w'.db.requests)

NeedsReview-next :
    (o o' : Option TimeOffRequestRow) → (o' ≡ o) ⊎ NeedsReview o' → NeedsReview o → NeedsReview o'
NeedsReview-next o o' (inl same) h = rw same h
NeedsReview-next o o' (inr flagged) h = flagged

OnlyFlags-step :
    (id : Text) (w w1 w2 : World)
    → Marked id w w1
    → IsFlagged id w1.db
    → OnlyFlags w1 w2
    → OnlyFlags w w2
unfolding find_by_id
OnlyFlags-step id w w1 w2 marked flagged rest j = elim (rest j) [
  | inr f ↦ inr f
  | inl same ↦ elim marked [
    | inl kept ↦ inl (same ∙ find_by_id-same j w1.db w.db kept)
    | inr (v, changed) ↦ elim (Bool-cases (id == j)) [
      | inl this ↦ inr (NeedsReview-next _ _ (inl same) (rw (← (==_iff id j).0 this) flagged))
      | inr apart ↦ inl (
          same
          ∙ find_by_id-same j w1.db
              (set_statuses id reconciliation_required v no_extra (now_iso w) w.db) changed
          ∙ find_by_id-set_statuses-other id j reconciliation_required v no_extra (now_iso w) w.db
              apart)
    ]
  ]
]

-- The loop over holds flags the requests of all of them, and changes no other.
abbrev pub FlagsAll : List BalanceHoldRow → World → World → Type 0
FlagsAll holds w w' = Framed w w' × AllFlagged holds w'.db × OnlyFlags w w'

-- One round, and then the rest of the loop.
pub FlagsAll-step :
    (h : BalanceHoldRow) (holds : List BalanceHoldRow) (w w1 w2 : World)
    → Framed w w1
    → Marked h.request_id w w1
    → IsFlagged h.request_id w1.db
    → FlagsAll holds w1 w2
    → FlagsAll (h ∷ holds) w w2
unfolding find_by_id
FlagsAll-step h holds w w1 w2 framed marked flagged (framed', all, only) = (
  (
    framed'.0 ∙ framed.0,
    framed'.1 ∙ framed.1,
    framed'.2 ∙ framed.2,
    framed'.3 ∙ framed.3,
    framed'.4 ∙ framed.4,
  ),
  (NeedsReview-next _ _ (only h.request_id) flagged, all),
  OnlyFlags-step h.request_id w w1 w2 marked flagged only,
)

pub flag_requests-FlagsAll :
    (n : ℤ) (holds : List BalanceHoldRow) (w : World)
    → Ensures (λ _. FlagsAll holds w) (flag_requests n holds w)
unfolding flag_requests
flag_requests-FlagsAll n [] w = ((refl, refl, refl, refl, refl), tt, λ j. inl refl)
flag_requests-FlagsAll n (h ∷ holds) w =
    and_then (λ _ w1. Framed w w1 × Marked h.request_id w w1 × IsFlagged h.request_id w1.db)
      (λ _. FlagsAll (h ∷ holds) w) (flag_request n h.request_id (find_by_id h.request_id w.db) w)
      (λ _. flag_requests n holds) (flag_request-Marked n h.request_id w)
      (λ _ w1 (framed, marked, flagged).
        ensure_more (λ _. FlagsAll holds w1) (λ _. FlagsAll (h ∷ holds) w)
          (flag_requests n holds w1) (flag_requests-FlagsAll n holds w1)
          (λ _ w2 rest. FlagsAll-step h holds w w1 w2 framed marked flagged rest))

pub AllFlagged-same :
    (holds : List BalanceHoldRow) (db db' : Db)
    → db.requests ≡ db'.requests
    → AllFlagged holds db
    → AllFlagged holds db'
AllFlagged-same [] db db' same all = tt
AllFlagged-same (h ∷ holds) db db' same (first, all) =
    (rw (← find_by_id-same h.request_id db db' same) first, AllFlagged-same holds db db' same all)
