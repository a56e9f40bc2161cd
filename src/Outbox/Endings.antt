-- ===== src/Outbox/Endings.antt =====
-- How the handling of one entry ends in `OutboxProcessor.sweep`.
use readyon.Base.{
  ◌+◌, ⊤, Bool, true, false, ◌≡◌, refl, Bool-cases, inl, inr, arith, leb, if◌then◌else◌,
}
use readyon.Types.{Text, IntegrationOutboxRow, ErrorText, transient, permanent}
use readyon.Errors.{AppError, hcm_error}
use readyon.Store.{World, M, Outcome, ok, err, IsAtomic, Ensures, pure, ◌>>◌}
use readyon.Store.Returns.{ensure_more}
use readyon.Outbox.Repository.{mark_for_retry}
use readyon.Outbox.Processor.{retry_or_give_up, on_error}
use readyon.Outbox.Failures.{Retried, Dropped, handle_permanent_failure-Dropped}
use readyon.Hcm.Port.{HcmAdapterPort}

-- One more retry while their bound allows it, and a permanent failure then.
abbrev pub MayRetry : IntegrationOutboxRow → World → World → Type 0
MayRetry entry w w' =
    (error : ErrorText) × (if leb entry.max_retries (entry.retry_count + 1)
      then Dropped entry.id entry.request_id w error w'
      else Retried entry w error w')

-- What becomes of an entry that ends in an exception: a refusal by the HCM system drops it at once,
-- and every other exception may be retried.
abbrev pub Dealt : IntegrationOutboxRow → AppError → World → World → Type 0
Dealt entry (hcm_error permanent code text) w w' =
    (error : ErrorText) × Dropped entry.id entry.request_id w error w'
Dealt entry _ w w' = MayRetry entry w w'

retry_or_give_up-MayRetry :
    (entry : IntegrationOutboxRow) (w : World) (error last : ErrorText)
    → Ensures (λ _. MayRetry entry w) (retry_or_give_up entry error last w)
unfolding retry_or_give_up mark_for_retry
retry_or_give_up-MayRetry entry w error last =
    elim (Bool-cases (leb entry.max_retries (entry.retry_count + 1))) [
      | inl spent ↦ rw spent (
          ensure_more (λ _. Dropped entry.id entry.request_id w last) _ _
            (handle_permanent_failure-Dropped entry.id entry.request_id w last)
            (λ _ w' done. (last, rw spent done)))
      | inr left ↦ rw (left, Ensures) (error, rw left (ground arith, refl))
    ]

-- How a round ends whose call has ended as `r`, and whether it counts: the call raised, its answer
-- was settled, or its settlement raised and the tables are those of the answer. An exception is dealt
-- with.
pub data Ending {A : Type 0} (entry : IntegrationOutboxRow) (r : Outcome A) (settle : A → M ⊤)
    (Settled : A → World → World → Type 0) : Bool → World → Type 0 where
  raised :
      {w' : World} (x : AppError) (w1 : World)
      → r ≡ err x w1
      → Dealt entry x w1 w'
      → Ending entry r settle Settled false w'
  settled :
      {w' : World} (a : A) (w1 : World)
      → r ≡ ok a w1
      → Settled a w1 w'
      → Ending entry r settle Settled true w'
  undone :
      {w' : World} (a : A) (x : AppError) (w1 w2 : World)
      → r ≡ ok a w1
      → settle a w1 ≡ err x w2
      → w2.db ≡ w1.db
      → Dealt entry x w2 w'
      → Ending entry r settle Settled false w'

module _ (port : HcmAdapterPort) (message : AppError → Text) where
  on_error-Dealt :
      (entry : IntegrationOutboxRow) (e : AppError) (w : World)
      → Ensures (λ _. Dealt entry e w) (on_error port message entry e w)
  unfolding on_error
  on_error-Dealt entry (hcm_error transient code text) w = retry_or_give_up-MayRetry entry w _ _
  on_error-Dealt entry (hcm_error permanent code text) w =
      ensure_more (λ _. Dropped entry.id entry.request_id w _) _ _
        (handle_permanent_failure-Dropped entry.id entry.request_id w _) (λ _ w' done. (_, done))
  on_error-Dealt entry _ w = retry_or_give_up-MayRetry entry w _ _

  not_counted :
      (P : World → Type 0) (r : Outcome ⊤)
      → Ensures (λ _. P) r
      → Ensures
          (λ counts w'. (counts ≡ false) × P w')
          (elim r as (λ _. Outcome Bool) [ ok a w' ↦ ok false w' | err e w' ↦ err e w' ])
  not_counted P (ok a w') h = (refl, h)
  not_counted P (err e w') h = absurd h

  -- The `catch` of a round.
  abbrev pub caught : IntegrationOutboxRow → Outcome Bool → Outcome Bool
  caught entry r = elim r as (λ _. Outcome Bool) [
    | ok a w' ↦ ok a w'
    | err e w' ↦ (on_error port message entry e >> pure false) w'
  ]

  pub caught_lem :
      (entry : IntegrationOutboxRow) (e : AppError) (w : World)
      → Ensures
          (λ counts w'. (counts ≡ false) × Dealt entry e w w')
          ((on_error port message entry e >> pure false) w)
  caught_lem entry e w =
      not_counted (Dealt entry e w) (on_error port message entry e w) (on_error-Dealt entry e w)

  module _ {A : Type 0} (entry : IntegrationOutboxRow) (Settled : A → World → World → Type 0)
      (settle : A → M ⊤)
      (atomic : (a : A) (w : World) → IsAtomic w.db (λ _. Settled a w) (settle a w)) where
    not_done :
        (P : World → Type 0) (R : Bool → World → Type 0) (r : Outcome Bool)
        → Ensures (λ counts w'. (counts ≡ false) × P w') r
        → ((w' : World) → P w' → R false w')
        → Ensures R r
    not_done P R (ok a w') (uncounted, h) next = rw uncounted (next w' h)
    not_done P R (err e w') h next = absurd h

    answered :
        (call : Outcome A) (a : A) (w1 : World) (r : Outcome ⊤)
        → call ≡ ok a w1
        → settle a w1 ≡ r
        → IsAtomic w1.db (λ _. Settled a w1) r
        → Ensures (Ending entry call settle Settled) (
            caught entry
              (elim r as (λ _. Outcome Bool) [ ok _ w' ↦ ok true w' | err e w' ↦ err e w' ]))
    answered call a w1 (ok _ w') q ends h = settled a w1 q h
    answered call a w1 (err e w2) q ends same =
        not_done (Dealt entry e w2) (Ending entry call settle Settled) _ (caught_lem entry e w2)
          (λ w' h. undone a e w1 w2 q ends same h)

    pub ends :
        (call : Outcome A)
        → Ensures (Ending entry call settle Settled) (
            caught entry (elim call as (λ _. Outcome Bool) [
              | ok a w1 ↦ (settle a >> pure true) w1
              | err e w1 ↦ err e w1
            ]))
    ends (ok a w1) = answered (ok a w1) a w1 (settle a w1) refl refl (atomic a w1)
    ends (err e w1) =
        not_done (Dealt entry e w1) (Ending entry (err e w1) settle Settled) _
          (caught_lem entry e w1) (λ w' h. raised e w1 refl h)
