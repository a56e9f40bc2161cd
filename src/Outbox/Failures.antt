-- ===== src/Outbox/Failures.antt =====
-- The `catch` of `OutboxProcessor.sweep`, and `handlePermanentFailure`.
use readyon.Base.{
  suc, length, length-take, ◌≡◌, refl, true, false, Bool, none, some, List, [], ◌∷◌, arith, Option,
  ℕ, ◌+◌, ◌<◌, ◌≤◌, leb, Bool-cases, Option-cases, inl, inr, ◌⊎◌, ⊤, if◌then◌else◌,
}
use readyon.Types.{
  Text, TimeOffRequestRow, IntegrationOutboxRow, approved_pending_hcm, failed_hcm, released,
  ErrorText, permanent, transient,
}
use readyon.Errors.{AppError, hcm_error}
use readyon.Store.{
  World, Db, Outcome, ok, err, Ensures, now_iso, ◌>>=◌, ◌>>◌, pure, calculate_exponential_backoff,
}
use readyon.Hold.Repository as Holds
use readyon.Hold.Repository.{end_holds}
use readyon.Request.Repository.{find_by_id, set_statuses, no_extra}
use readyon.Request.Updates.{update_status_lem}
use readyon.Outbox.Repository.{
  mark_failed, mark_for_retry, fail, retry_later, update_entry, claim_pending_entries,
  select_pending,
}
use readyon.Outbox.Processor.{
  in_status, give_up, handle_permanent_failure, handle_permanent_failure_tx, retry_or_give_up,
  on_error, send, process_entry, process_entries, sweep,
}
use readyon.Hcm.Port.{HcmAdapterPort}
use readyon.Store.Returns.{ensure_more}
use readyon.Audit

module _ (outbox_id request_id : Text) (w : World) where
  -- The request as a permanent failure leaves it: given up with its hold released if it waited for
  -- the HCM system, and otherwise as it was.
  abbrev pub GivenUp : Option TimeOffRequestRow → World → Type 0
  GivenUp none w' = (w'.db.requests ≡ w.db.requests) × (w'.db.holds ≡ w.db.holds)
  GivenUp (some r) w' =
      (w'.db.requests
        ≡ (set_statuses request_id failed_hcm r.version no_extra (now_iso w) w.db).requests)
      × (w'.db.holds ≡ (end_holds released request_id (now_iso w) w.db).holds)

  -- The tables after a permanent failure.
  abbrev pub Dropped : ErrorText → World → Type 0
  Dropped error w' =
      GivenUp (in_status approved_pending_hcm (find_by_id request_id w.db)) w'
      × (w'.db.entries ≡ (update_entry outbox_id (fail error permanent (now_iso w)) w.db).entries)
      × (w'.db.projections ≡ w.db.projections)

  found_waiting :
      (o : Option TimeOffRequestRow) (r : TimeOffRequestRow)
      → in_status approved_pending_hcm o ≡ some r
      → o ≡ some r
  found_waiting none r h = ground arith
  found_waiting (some q) r h = ground arith

  pub handle_permanent_failure-Dropped :
      (error : ErrorText)
      → Ensures (λ _. Dropped error) (handle_permanent_failure outbox_id request_id error w)
  unfolding handle_permanent_failure handle_permanent_failure_tx give_up mark_failed Holds.release
      Audit.log set_statuses end_holds
  handle_permanent_failure-Dropped error =
      elim (Option-cases (in_status approved_pending_hcm (find_by_id request_id w.db))) [
        | inl gone ↦ rw (gone, Ensures) (rw gone (refl, refl), refl, refl)
        | inr (r, waits) ↦
            rw
              (
                waits,
                update_status_lem request_id failed_hcm r.version no_extra w r
                    (found_waiting _ r waits) refl,
                Ensures,
              )
              (rw waits (refl, refl), refl, refl)
      ]

-- What `sweep` does about an exception: one more retry, below the bound, or a permanent failure.
abbrev pub Retried : IntegrationOutboxRow → World → ErrorText → World → Type 0
Retried entry w error w' =
    (entry.retry_count + 1 < entry.max_retries)
    × (w'.db
        ≡ update_entry entry.id
            (retry_later (calculate_exponential_backoff (entry.retry_count + 1) w) error
              (entry.retry_count + 1) (now_iso w))
            w.db)

abbrev pub Handled : IntegrationOutboxRow → World → World → Type 0
Handled entry w w' =
    (error : ErrorText) × (Retried entry w error w' ⊎ Dropped entry.id entry.request_id w error w')

length-select_pending :
    (now : Text) (limit : ℕ) (db : Db) → length (select_pending now limit db) ≤ limit
unfolding select_pending
length-select_pending now limit db = length-take limit _

drop :
    (entry : IntegrationOutboxRow) (w : World) (error : ErrorText)
    → Ensures (λ _. Handled entry w) (handle_permanent_failure entry.id entry.request_id error w)
drop entry w error =
    ensure_more (λ _. Dropped entry.id entry.request_id w error) (λ _. Handled entry w) _
      (handle_permanent_failure-Dropped entry.id entry.request_id w error)
      (λ _ w' done. (error, inr done))

retry_or_give_up-Handled :
    (entry : IntegrationOutboxRow) (w : World) (error last : ErrorText)
    → Ensures (λ _. Handled entry w) (retry_or_give_up entry error last w)
unfolding retry_or_give_up mark_for_retry
retry_or_give_up-Handled entry w error last =
    elim (Bool-cases (leb entry.max_retries (entry.retry_count + 1))) [
      | inl spent ↦ rw (spent, Ensures) (drop entry w last)
      | inr left ↦ rw (left, Ensures) (error, inl (ground arith, refl))
    ]

module _ (port : HcmAdapterPort) (message : AppError → Text) where
  -- Whatever exception an entry ends in, handling it raises no other: the entry is pending again
  -- with one more retry, still below its bound, or it has failed, and a request that waited for the
  -- HCM system has then failed too, with its hold released.
  pub on_error-Handled :
      (entry : IntegrationOutboxRow) (e : AppError) (w : World)
      → Ensures (λ _. Handled entry w) (on_error port message entry e w)
  unfolding on_error
  on_error-Handled entry (hcm_error transient code text) w = retry_or_give_up-Handled entry w _ _
  on_error-Handled entry (hcm_error permanent code text) w = drop entry w _
  on_error-Handled entry _ w = retry_or_give_up-Handled entry w _ _

  answered :
      (P : ⊤ → World → Type 0) (r : Outcome ⊤)
      → Ensures P r
      → Ensures
          (λ _ _. Unit {0})
          (elim r as (λ _. Outcome Bool) [ ok a w' ↦ ok false w' | err e w' ↦ err e w' ])
  answered P (ok a w) h = tt
  answered P (err e w) h = absurd h

  caught :
      (entry : IntegrationOutboxRow) (r : Outcome Bool)
      → Ensures
          (λ _ _. Unit {0})
          (elim r as (λ _. Outcome Bool) [
            | ok a w' ↦ ok a w'
            | err e w' ↦ (on_error port message entry e >> pure false) w'
          ])
  caught entry (ok a w) = tt
  caught entry (err e w) =
      answered (λ _. Handled entry w) (on_error port message entry e w) (on_error-Handled entry e w)

  process_entry_returns :
      (entry : IntegrationOutboxRow) (w : World)
      → Ensures (λ _ _. Unit {0}) (process_entry port message entry w)
  unfolding process_entry
  process_entry_returns entry w =
      caught entry
        (send port message entry entry.action entry.payload (find_by_id entry.request_id w.db) w)

  counted :
      (entry : IntegrationOutboxRow) (rest : List IntegrationOutboxRow) (r : Outcome Bool)
      → Ensures (λ _ _. Unit {0}) r
      → ((w : World) → Ensures (λ n _. n ≤ length rest) (process_entries port message rest w))
      → Ensures
          (λ n _. n ≤ length (entry ∷ rest))
          (elim r as (λ _. Outcome ℕ) [
            | ok b w' ↦
                (process_entries port message rest >>= λ n. pure (if b then 1 + n else n)) w'
            | err e w' ↦ err e w'
          ])
  counted entry rest (err e w) h k = absurd h
  counted entry rest (ok b w) h k = added b (process_entries port message rest w) (k w)
    where
      added :
          (c : Bool) (r : Outcome ℕ)
          → Ensures (λ n _. n ≤ length rest) r
          → Ensures
              (λ n _. n ≤ suc (length rest))
              (elim r as (λ _. Outcome ℕ) [
                | ok n w' ↦ ok (if c then 1 + n else n) w'
                | err e w' ↦ err e w'
              ])
      added true (ok n w) h = omega arith
      added false (ok n w) h = omega arith
      added c (err e w) h = absurd h

  process_entries_returns :
      (entries : List IntegrationOutboxRow) (w : World)
      → Ensures (λ n _. n ≤ length entries) (process_entries port message entries w)
  unfolding process_entries
  process_entries_returns [] w = omega arith
  process_entries_returns (entry ∷ rest) w =
      counted entry rest (process_entry port message entry w) (process_entry_returns entry w)
        (process_entries_returns rest)

  -- A sweep always returns, whatever the adapter's calls raise, and counts at most ten entries.
  pub sweep_returns : (w : World) → Ensures (λ n _. n ≤ 10) (sweep port message w)
  unfolding sweep claim_pending_entries
  sweep_returns w =
      ensure_more (λ n _. n ≤ length (select_pending (now_iso w) 10 w.db)) (λ n _. n ≤ 10) _
        (process_entries_returns (select_pending (now_iso w) 10 w.db) _)
        (λ n w' h. omega (arith, length-select_pending (now_iso w) 10 w.db))
