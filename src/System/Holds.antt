-- ===== src/System/Holds.antt =====
-- Requests and holds under all steps of the service.
use readyon.Base.{
  ℕ, Bool, true, false, ◌||◌, ◌==◌, ==_iff, Bool-cases, Option-cases, some, List, [], ◌∷◌, ◌++◌,
  find_first, any, update_where, ◌≡◌, refl, sym, ◌∙◌, ap, inl, inr, arith, any-update_where,
  any-update_where-none, any-append_one, find_first-append_new, find_first-append_other,
  find_first-append_some, none, [],
}
use readyon.Types.{
  Text, RequestStatus, HoldStatus, reconciliation_required, same_status, TimeOffRequestRow,
  BalanceHoldRow, is_active,
}
use readyon.Store.{World, Db, now_iso}
use readyon.StateMachine.{is_hold_active_status}
use readyon.Request.Repository.{Extra, find_by_id, set_statuses, set_status}
use readyon.Request.Updates.{
  find_by_id-same, find_by_id-set_statuses, find_by_id-set_statuses-other,
}
use readyon.Hold.Repository.{is_active_of, end_hold, end_holds}
use readyon.Batch.Flags.{OnlyFlags, lookup}

-- The statuses in which a request may hold hours back.
unfoldable pub is_holding : RequestStatus → Bool
unfolding is_hold_active_status
is_holding s = is_hold_active_status s || same_status s reconciliation_required

-- A request in another status has no active hold.
abbrev pub Coherent : Db → Type 0
Coherent db =
    (id : Text) (r : TimeOffRequestRow)
    → find_by_id id db ≡ some r
    → is_holding r.status ≡ false
    → any (is_active_of id) db.holds ≡ false

pub Coherent-same :
    (db db' : Db) → db'.requests ≡ db.requests → db'.holds ≡ db.holds → Coherent db → Coherent db'
Coherent-same db db' rs hs h id r found ended =
    rw hs (h id r (find_by_id-same id db db' (sym rs) ∙ found) ended)

pub Coherent-none : (db : Db) → db.requests ≡ [] → Coherent db
unfolding find_by_id find_first
Coherent-none db empty id r found ended = absurd (missing r (rw empty at found))
  where
    missing : (r : TimeOffRequestRow) → none ≡ some r → ⊥
    missing r h = ground arith

-- The holds of a request end with it.
end_holds-none :
    (s : HoldStatus) (id : Text) (now : Text) (holds : List BalanceHoldRow)
    → is_active s ≡ false
    → any (is_active_of id) (update_where (is_active_of id) (end_hold s now) holds) ≡ false
end_holds-none s id now holds over =
    any-update_where-none (is_active_of id) (is_active_of id) (end_hold s now) (λ y h. h)
      (λ y. ground arith) holds

end_holds-other :
    (s : HoldStatus) (id j : Text) (now : Text) (holds : List BalanceHoldRow)
    → is_active s ≡ false
    → any (is_active_of j) holds ≡ false
    → any (is_active_of j) (update_where (is_active_of id) (end_hold s now) holds) ≡ false
end_holds-other s id j now holds over h =
    any-update_where (is_active_of j) (is_active_of id) (end_hold s now) (λ y k. ground arith) holds
      h

-- A request ends, and its hold with it.
pub Coherent-closed :
    (id : Text) (s : RequestStatus) (hs : HoldStatus) (v : ℕ) (extra : Extra) (now : Text)
    (db db' : Db)
    → is_active hs ≡ false
    → db'.requests ≡ (set_statuses id s v extra now db).requests
    → db'.holds ≡ (end_holds hs id now db).holds
    → Coherent db
    → Coherent db'
unfolding end_holds
Coherent-closed id s hs v extra now db db' over rs held h j r found ended =
    elim (Bool-cases (id == j)) [
      | inl this ↦ rw (held, ← (==_iff id j).0 this) (end_holds-none hs id now db.holds over)
      | inr apart ↦
          let before =
            sym (find_by_id-set_statuses-other id j s v extra now db apart)
            ∙ find_by_id-same j (set_statuses id s v extra now db) db' (sym rs)
            ∙ found in
          rw held (end_holds-other hs id j now db.holds over (h j r before ended))
    ]

not_both : (s t : RequestStatus) → s ≡ t → is_holding s ≡ true → is_holding t ≡ false → ⊥
not_both s t e h k = ground arith

status_of :
    (s : RequestStatus) (extra : Extra) (now : Text) (q r : TimeOffRequestRow)
    → some (set_status s extra now q) ≡ some r
    → s ≡ r.status
status_of s extra now q r h = ground arith

-- A request goes on to a status in which it may hold hours back.
pub Coherent-moved :
    (id : Text) (s : RequestStatus) (v : ℕ) (extra : Extra) (w : World) (db' : Db)
    (q : TimeOffRequestRow)
    → is_holding s ≡ true
    → find_by_id id w.db ≡ some q
    → q.version ≡ v
    → db'.requests ≡ (set_statuses id s v extra (now_iso w) w.db).requests
    → db'.holds ≡ w.db.holds
    → Coherent w.db
    → Coherent db'
Coherent-moved id s v extra w db' q holding there same rs held h j r found ended =
    elim (Bool-cases (id == j)) [
      | inl this ↦
          let now =
            sym (find_by_id-set_statuses id s v extra w q there same)
            ∙ find_by_id-same id (set_statuses id s v extra (now_iso w) w.db) db' (sym rs)
            ∙ ap (λ k. find_by_id k db') ((==_iff id j).0 this)
            ∙ found in
          absurd (not_both s r.status (status_of s extra (now_iso w) q r now) holding ended)
      | inr apart ↦
          let before =
            sym (find_by_id-set_statuses-other id j s v extra (now_iso w) w.db apart)
            ∙ find_by_id-same j (set_statuses id s v extra (now_iso w) w.db) db' (sym rs)
            ∙ found in
          rw held (h j r before ended)
    ]

review_holding : is_holding reconciliation_required ≡ true
unfolding is_holding
review_holding = refl

-- Requests are flagged for reconciliation.
pub Coherent-flagged :
    (w w' : World) → w'.db.holds ≡ w.db.holds → OnlyFlags w w' → Coherent w.db → Coherent w'.db
unfolding find_by_id
Coherent-flagged w w' held only h j r found ended = elim (only j) [
  | inl same ↦ rw held (h j r (sym same ∙ found) ended)
  | inr flagged ↦
      absurd
        (not_both reconciliation_required r.status (sym (rw found at flagged)) review_holding ended)
]

status_same : (q r : TimeOffRequestRow) → some q ≡ some r → q.status ≡ r.status
status_same q r h = ground arith

-- No other request has the identifier of a new one.
other_id :
    (j i : Text) (requests : List TimeOffRequestRow) (y : TimeOffRequestRow)
    → any (λ (x : TimeOffRequestRow). x.id == i) requests ≡ false
    → lookup j requests ≡ some y
    → (i == j) ≡ false
unfolding find_first any
other_id j i [] y fresh found = ground arith
other_id j i (x ∷ xs) y fresh found = ground (arith, other_id j i xs y)

module _ (q : TimeOffRequestRow) (g : BalanceHoldRow) (holding : is_holding q.status ≡ true)
    (of : g.request_id ≡ q.id) where
  created_hold :
      (j : Text) (holds : List BalanceHoldRow)
      → (q.id == j) ≡ false
      → any (is_active_of j) holds ≡ false
      → any (is_active_of j) (holds ++ g ∷ []) ≡ false
  created_hold j holds apart h = rw (any-append_one (is_active_of j) holds g, h, of, apart) refl

  -- A request and its hold are new.
  pub Coherent-created :
      (db db' : Db)
      → any (λ (x : TimeOffRequestRow). x.id == q.id) db.requests ≡ false
      → db'.requests ≡ db.requests ++ q ∷ []
      → db'.holds ≡ db.holds ++ g ∷ []
      → Coherent db
      → Coherent db'
  unfolding find_by_id
  Coherent-created db db' fresh rs hs h j r found ended =
      let mine = λ (x : TimeOffRequestRow). x.id == j in
      elim (Option-cases (find_first mine db.requests)) [
        | inl n ↦ elim (Bool-cases (q.id == j)) [
          | inl this ↦
              let now = sym (find_first-append_new mine db.requests q n this) ∙ (rw rs at found) in
              absurd (not_both q.status r.status (status_same q r now) holding ended)
          | inr apart ↦
              let now =
                sym n ∙ sym (find_first-append_other mine db.requests q apart) ∙ (rw rs at found) in
              absurd (ground arith)
        ]
        | inr (y, there) ↦
            let now =
              sym (find_first-append_some mine db.requests (q ∷ []) y there) ∙ (rw rs at found) in
            rw hs (
              created_hold j db.holds (other_id j q.id db.requests y fresh there)
                (h j r (there ∙ now) ended))
      ]
