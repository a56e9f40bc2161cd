-- ===== src/Outbox/Rounds.antt =====
-- What `OutboxProcessor.sweep` does with each entry that it claims.
use readyon.Base.{
  ℕ, ◌+◌, Bool, false, ◌&&◌, ◌==◌, ◌≡◌, ◌⊎◌, none, some, List, [], ◌∷◌, any, update_where,
  if◌then◌else◌,
}
use readyon.Types.{
  Text, TimeOffRequestRow, IntegrationOutboxRow, OutboxAction, Payload, post_payload,
  cancel_payload, post_time_off, cancel_time_off, approved_pending_hcm, cancelled,
  invalid_request_state, permanent, is_pending, processing,
}
use readyon.Errors.{AppError, type_error}
use readyon.Store.{World, now_iso, run_in_transaction}
use readyon.Request.Repository.{find_by_id}
use readyon.Outbox.Repository.{select_pending, fail, update_entry}
use readyon.Outbox.Processor.{in_status, settle_post, settle_cancel}
use readyon.Outbox.Settlement.{Overtaken, Accepted}
use readyon.Outbox.Refund.{Refunded}
use readyon.Outbox.Endings.{Dealt, Ending}
use readyon.Hcm.Port.{HcmAdapterPort}

-- The world after drawing an identifier.
abbrev drew : World → World
drew w = record w { drawn = w.drawn + 1 }

-- The request does not have the status that the action needs: the entry fails, without a call.
abbrev pub Stale : IntegrationOutboxRow → World → Bool → World → Type 0
Stale entry w counts w' =
    (counts ≡ false)
    × (w'.db ≡ (update_entry entry.id (fail invalid_request_state permanent (now_iso w)) w.db))

-- The world once the entries are claimed.
abbrev pub claimed_world : World → World
claimed_world w = record w {
  db = record w.db {
    entries =
        update_where
          (λ e.
            any (λ (c : IntegrationOutboxRow). c.id == e.id) (select_pending (now_iso w) 10 w.db)
            && is_pending e.status)
          (λ e. record e { status = processing; updated_at = now_iso w }) w.db.entries;
  };
}

module _ (port : HcmAdapterPort) (message : AppError → Text) where
  -- One round: its entry, action and payload, the world before, if it counts, and the world after.
  abbrev pub Round : IntegrationOutboxRow → OutboxAction → Payload → World → Bool → World → Type 0
  Round entry post_time_off (post_payload e t a b h) w counts w' =
      ((in_status approved_pending_hcm (find_by_id entry.request_id w.db) ≡ none)
        × Stale entry w counts w')
      ⊎ ((r : TimeOffRequestRow) × (in_status approved_pending_hcm
              (find_by_id entry.request_id w.db)
            ≡ some r)
          × Ending entry
              (port.post_time_off
                (record {
                  idempotency_key = entry.idempotency_key;
                  employee_id = e;
                  leave_type = t;
                  start_date = a;
                  end_date = b;
                  hours = h;
                  correlation_id = w.uuid w.drawn;
                })
                (drew w))
              (λ answer. run_in_transaction (settle_post entry e t h answer))
              (λ answer w1 w'.
                Overtaken entry e t h answer w1 w' ⊎ Accepted entry e t h answer w1 w')
              counts w')
  Round entry cancel_time_off (cancel_payload e t reference) w counts w' =
      ((in_status cancelled (find_by_id entry.request_id w.db) ≡ none) × Stale entry w counts w')
      ⊎ ((r : TimeOffRequestRow) × (in_status cancelled (find_by_id entry.request_id w.db) ≡ some r)
          × Ending entry
              (port.cancel_time_off
                (record {
                  idempotency_key = entry.idempotency_key;
                  hcm_reference_id = reference;
                  employee_id = e;
                  leave_type = t;
                  correlation_id = w.uuid w.drawn;
                })
                (drew w))
              (λ answer. run_in_transaction (settle_cancel entry e t reference answer r))
              (λ answer. Refunded entry e t reference answer r) counts w')
  Round entry post_time_off (cancel_payload _ _ _) w counts w' =
      (counts ≡ false) × Dealt entry type_error w w'
  Round entry cancel_time_off (post_payload _ _ _ _ _) w counts w' =
      (counts ≡ false) × Dealt entry type_error w w'

  -- The rounds of a list of entries, in its order and one for each.
  pub data Rounds : List IntegrationOutboxRow → World → ℕ → World → Type 0 where
    none_left : {w : World} → Rounds [] w 0 w
    round_then :
        {w w1 w' : World} {n : ℕ} (entry : IntegrationOutboxRow)
        (entries : List IntegrationOutboxRow) (counts : Bool)
        → Round entry entry.action entry.payload w counts w1
        → Rounds entries w1 n w'
        → Rounds (entry ∷ entries) w (if counts then 1 + n else n) w'
