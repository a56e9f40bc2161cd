-- ===== src/Request/Inserts.antt =====
-- `RequestRepository.create`, `HoldRepository.create` and `OutboxRepository.create`.
use readyon.Base.{
  ◌≡◌, true, false, ◌==◌, [], ◌∷◌, ◌++◌, ℤ, arith, Option, any, find_first-append_none, any-or_left,
  ==_self, ◌+◌, ℕ,
}
use readyon.Types.{
  Text, TimeOffRequestRow, BalanceHoldRow, IntegrationOutboxRow, OutboxAction, IdempotencyKey,
  Payload, same_key,
}
use readyon.Errors.{sqlite_error, time_off_requests, balance_holds, integration_outbox}
use readyon.Store.{ok, err, World, Db, now_iso}
use readyon.Hold.Repository as Holds
use readyon.Request.Repository as Requests
use readyon.Request.Repository.{CreateParams, new_request}
use readyon.Outbox.Repository as Outbox

-- The world after an identifier was drawn.
abbrev pub drew : World → World
drew w = record w { drawn = w.drawn + 1 }

create_request_fresh :
    (x : TimeOffRequestRow) (db : Db)
    → Requests.violates x db ≡ false
    → any (λ (y : TimeOffRequestRow). y.id == x.id) db.requests ≡ false
unfolding Requests.violates
create_request_fresh x db h = ground arith

-- The row is inserted and read back, or it breaks a constraint.
module _ (p : CreateParams) (w : World) where
  pub create_request_ok :
      let x = new_request p (w.uuid w.drawn) (now_iso w) in
      Requests.violates x w.db ≡ false
      → Requests.create p w
        ≡ ok x (record w {
          drawn = w.drawn + 1;
          db = record w.db { requests = w.db.requests ++ x ∷ [] };
        })
  unfolding Requests.create Requests.find_by_id
  create_request_ok fine =
      let x = new_request p (w.uuid w.drawn) (now_iso w) in
      rw fine (
        rw (
          find_first-append_none (λ (y : TimeOffRequestRow). y.id == w.uuid w.drawn) w.db.requests x
            (create_request_fresh x w.db fine) (==_self (w.uuid w.drawn))))

  pub create_request_err :
      Requests.violates (new_request p (w.uuid w.drawn) (now_iso w)) w.db ≡ true
      → Requests.create p w ≡ err (sqlite_error time_off_requests) (drew w)
  unfolding Requests.create
  create_request_err bad = rw bad

create_hold_fresh :
    (x : BalanceHoldRow) (db : Db)
    → Holds.violates x db ≡ false
    → any (λ (y : BalanceHoldRow). y.id == x.id) db.holds ≡ false
unfolding Holds.violates
create_hold_fresh x db h = any-or_left _ (λ y. y.request_id == x.request_id) db.holds (ground arith)

-- The row is inserted and read back, or it breaks a constraint.
module _ (r : Text) (e : Text) (t : Text) (l : Text) (amount : ℤ) (w : World) where
  pub create_hold_ok :
      let x = Holds.new_hold r e t l amount (w.uuid w.drawn) (now_iso w) in
      Holds.violates x w.db ≡ false
      → Holds.create r e t l amount w
        ≡ ok x (record w { drawn = w.drawn + 1; db = record w.db { holds = w.db.holds ++ x ∷ [] } })
  unfolding Holds.create Holds.find_by_id
  create_hold_ok fine =
      let x = Holds.new_hold r e t l amount (w.uuid w.drawn) (now_iso w) in
      rw fine (
        rw (
          find_first-append_none (λ (y : BalanceHoldRow). y.id == w.uuid w.drawn) w.db.holds x
            (create_hold_fresh x w.db fine) (==_self (w.uuid w.drawn))))

  pub create_hold_err :
      Holds.violates (Holds.new_hold r e t l amount (w.uuid w.drawn) (now_iso w)) w.db ≡ true
      → Holds.create r e t l amount w ≡ err (sqlite_error balance_holds) (drew w)
  unfolding Holds.create
  create_hold_err bad = rw bad

create_entry_fresh :
    (x : IntegrationOutboxRow) (db : Db)
    → Outbox.violates x db ≡ false
    → any (λ (y : IntegrationOutboxRow). y.id == x.id) db.entries ≡ false
unfolding Outbox.violates
create_entry_fresh x db h =
    any-or_left _ (λ y. same_key y.idempotency_key x.idempotency_key) db.entries (ground arith)

-- The row is inserted and read back, or it breaks a constraint.
module _ (r : Text) (action : OutboxAction) (key : IdempotencyKey) (payload : Payload)
    (retries : Option ℕ) (w : World) where
  pub create_entry_ok :
      let x = Outbox.new_entry r action key payload retries (w.uuid w.drawn) (now_iso w) in
      Outbox.violates x w.db ≡ false
      → Outbox.create r action key payload retries w
        ≡ ok x (record w {
          drawn = w.drawn + 1;
          db = record w.db { entries = w.db.entries ++ x ∷ [] };
        })
  unfolding Outbox.create Outbox.find_by_id
  create_entry_ok fine =
      let x = Outbox.new_entry r action key payload retries (w.uuid w.drawn) (now_iso w) in
      rw fine (
        rw (
          find_first-append_none (λ (y : IntegrationOutboxRow). y.id == w.uuid w.drawn) w.db.entries
            x (create_entry_fresh x w.db fine) (==_self (w.uuid w.drawn))))

  pub create_entry_err :
      Outbox.violates
          (Outbox.new_entry r action key payload retries (w.uuid w.drawn) (now_iso w))
          w.db
        ≡ true
      → Outbox.create r action key payload retries w
        ≡ err (sqlite_error integration_outbox) (drew w)
  unfolding Outbox.create
  create_entry_err bad = rw bad
