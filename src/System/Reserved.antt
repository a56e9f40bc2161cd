-- ===== src/System/Reserved.antt =====
-- Requests that wait, and the holds that keep their hours back.
use readyon.Base.{
  ℕ, ℤ, Bool, true, false, ◌&&◌, ◌==◌, ==_iff, leb_ℤ, Bool-cases, Option-cases, some, none, List,
  [], ◌∷◌, ◌++◌, find_first, any, update_where, ◌≡◌, refl, sym, ◌∙◌, ap, inl, inr, arith,
  any-append_one, find_first-append_new, find_first-append_other, find_first-append_some,
  any-update_where-rest,
}
use readyon.Types.{
  Text, RequestStatus, HoldStatus, reconciliation_required, TimeOffRequestRow, BalanceHoldRow,
}
use readyon.Store.{World, Db, now_iso}
use readyon.StateMachine.{is_hold_active_status}
use readyon.Request.Repository.{Extra, find_by_id, set_statuses, set_status}
use readyon.Request.Updates.{
  find_by_id-same, find_by_id-set_statuses, find_by_id-set_statuses-other,
}
use readyon.Hold.Repository.{is_active_of, end_hold, end_holds}
use readyon.Batch.Flags.{OnlyFlags}

-- An active hold of the request, of at least these hours.
abbrev pub keeps_back : Text → ℤ → BalanceHoldRow → Bool
keeps_back id hours h = is_active_of id h && leb_ℤ hours h.hold_amount

-- Every request that waits for a manager or the HCM system has its hours held back.
abbrev pub Reserved : Db → Type 0
Reserved db =
    (id : Text) (r : TimeOffRequestRow)
    → find_by_id id db ≡ some r
    → is_hold_active_status r.status ≡ true
    → any (keeps_back id r.hours_requested) db.holds ≡ true

pub Reserved-same :
    (db db' : Db) → db'.requests ≡ db.requests → db'.holds ≡ db.holds → Reserved db → Reserved db'
Reserved-same db db' rs hs h id r found waits =
    rw hs (h id r (find_by_id-same id db db' (sym rs) ∙ found) waits)

pub Reserved-none : (db : Db) → db.requests ≡ [] → Reserved db
unfolding find_by_id find_first
Reserved-none db empty id r found waits = absurd (missing r (rw empty at found))
  where
    missing : (r : TimeOffRequestRow) → none ≡ some r → ⊥
    missing r h = ground arith

-- The holds of the other requests stay.
end_holds-kept :
    (s : HoldStatus) (id j : Text) (hours : ℤ) (now : Text) (holds : List BalanceHoldRow)
    → (id == j) ≡ false
    → any (keeps_back j hours) holds ≡ true
    → any (keeps_back j hours) (update_where (is_active_of id) (end_hold s now) holds) ≡ true
end_holds-kept s id j hours now holds apart =
    any-update_where-rest (keeps_back j hours) (is_active_of id) (end_hold s now)
      (λ y k. ground arith) holds

not_waiting :
    (s : RequestStatus) (extra : Extra) (now : Text) (q r : TimeOffRequestRow)
    → is_hold_active_status s ≡ false
    → some (set_status s extra now q) ≡ some r
    → is_hold_active_status r.status ≡ true
    → ⊥
not_waiting s extra now q r over h waits = ground arith

same_hours :
    (s : RequestStatus) (extra : Extra) (now : Text) (q r : TimeOffRequestRow)
    → some (set_status s extra now q) ≡ some r
    → q.hours_requested ≡ r.hours_requested
same_hours s extra now q r h = ground arith

module _ (id : Text) (s : RequestStatus) (v : ℕ) (extra : Extra) (w : World) (db' : Db)
    (q : TimeOffRequestRow) (there : find_by_id id w.db ≡ some q) (same : q.version ≡ v)
    (rs : db'.requests ≡ (set_statuses id s v extra (now_iso w) w.db).requests)
    (h : Reserved w.db) where
  -- The row that the update leaves of this request, and of another.
  row_now :
      (j : Text) (r : TimeOffRequestRow)
      → (id == j) ≡ true
      → find_by_id j db' ≡ some r
      → some (set_status s extra (now_iso w) q) ≡ some r
  row_now j r this found =
      sym (find_by_id-set_statuses id s v extra w q there same)
      ∙ find_by_id-same id (set_statuses id s v extra (now_iso w) w.db) db' (sym rs)
      ∙ ap (λ k. find_by_id k db') ((==_iff id j).0 this)
      ∙ found

  row_before :
      (j : Text) (r : TimeOffRequestRow)
      → (id == j) ≡ false
      → find_by_id j db' ≡ some r
      → find_by_id j w.db ≡ some r
  row_before j r apart found =
      sym (find_by_id-set_statuses-other id j s v extra (now_iso w) w.db apart)
      ∙ find_by_id-same j (set_statuses id s v extra (now_iso w) w.db) db' (sym rs)
      ∙ found

  -- A request ends, and its hold with it.
  pub Reserved-closed :
      (hs : HoldStatus)
      → is_hold_active_status s ≡ false
      → db'.holds ≡ (end_holds hs id (now_iso w) w.db).holds
      → Reserved db'
  unfolding end_holds
  Reserved-closed hs over held j r found waits = elim (Bool-cases (id == j)) [
    | inl this ↦ absurd (not_waiting s extra (now_iso w) q r over (row_now j r this found) waits)
    | inr apart ↦ rw held (
        end_holds-kept hs id j r.hours_requested (now_iso w) w.db.holds apart
          (h j r (row_before j r apart found) waits))
  ]

  -- A request that waits goes on to wait for something else.
  pub Reserved-moved : is_hold_active_status q.status ≡ true → db'.holds ≡ w.db.holds → Reserved db'
  Reserved-moved waited held j r found waits = elim (Bool-cases (id == j)) [
    | inl this ↦
        rw
          (
            held,
            ← (==_iff id j).0 this,
            ← same_hours s extra (now_iso w) q r (row_now j r this found),
          )
          (h id q there waited)
    | inr apart ↦ rw held (h j r (row_before j r apart found) waits)
  ]

review_ends : (s : RequestStatus) → s ≡ reconciliation_required → is_hold_active_status s ≡ true → ⊥
unfolding is_hold_active_status
review_ends s h waits = ground arith

-- Requests are flagged for reconciliation.
pub Reserved-flagged :
    (w w' : World) → w'.db.holds ≡ w.db.holds → OnlyFlags w w' → Reserved w.db → Reserved w'.db
unfolding find_by_id
Reserved-flagged w w' held only h j r found waits = elim (only j) [
  | inl same ↦ rw held (h j r (sym same ∙ found) waits)
  | inr flagged ↦ absurd (review_ends r.status (rw found at flagged) waits)
]

module _ (q : TimeOffRequestRow) (g : BalanceHoldRow)
    (own : keeps_back q.id q.hours_requested g ≡ true) where
  hours_of : (r : TimeOffRequestRow) → some q ≡ some r → q.hours_requested ≡ r.hours_requested
  hours_of r h = ground arith

  kept_on :
      (j : Text) (hours : ℤ) (holds : List BalanceHoldRow)
      → any (keeps_back j hours) holds ≡ true
      → any (keeps_back j hours) (holds ++ g ∷ []) ≡ true
  kept_on j hours holds h = rw (any-append_one (keeps_back j hours) holds g, h) refl

  kept_new :
      (j : Text) (hours : ℤ) (holds : List BalanceHoldRow)
      → q.id ≡ j
      → q.hours_requested ≡ hours
      → any (keeps_back j hours) (holds ++ g ∷ []) ≡ true
  kept_new j hours holds this same =
      rw (any-append_one (keeps_back j hours) holds g, ← this, ← same, own) (ground arith)

  -- A request and its hold are new.
  pub Reserved-created :
      (db db' : Db)
      → db'.requests ≡ db.requests ++ q ∷ []
      → db'.holds ≡ db.holds ++ g ∷ []
      → Reserved db
      → Reserved db'
  unfolding find_by_id
  Reserved-created db db' rs hs h j r found waits =
      let mine = λ (x : TimeOffRequestRow). x.id == j in
      elim (Option-cases (find_first mine db.requests)) [
        | inl n ↦ elim (Bool-cases (q.id == j)) [
          | inl this ↦
              let now = sym (find_first-append_new mine db.requests q n this) ∙ (rw rs at found) in
              rw hs
                (kept_new j r.hours_requested db.holds ((==_iff q.id j).0 this) (hours_of r now))
          | inr apart ↦
              let now =
                sym n ∙ sym (find_first-append_other mine db.requests q apart) ∙ (rw rs at found) in
              absurd (ground arith)
        ]
        | inr (y, there) ↦
            let now =
              sym (find_first-append_some mine db.requests (q ∷ []) y there) ∙ (rw rs at found) in
            rw hs (kept_on j r.hours_requested db.holds (h j r (there ∙ now) waits))
      ]
