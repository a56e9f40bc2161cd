-- ===== src/Hcm/HttpAdapter/Errors.antt =====
-- The exceptions of src/integration/hcm/http-hcm-adapter.ts.
use readyon.Base.{false, ◌||◌, ◌==◌, leb, ◌≡◌, ◌<◌, arith, Bool-cases, inl, inr}
use readyon.Types.{Text, transient, permanent}
use readyon.Errors.{AppError, hcm_error}
use readyon.Store.{World, M, Outcome, ok, err}
use readyon.Hcm.HttpAdapter.{HttpResponse, HttpTexts, handle_response, handle_error, send_call}

-- An answer, or an exception of the HCM system, a permanent one only if `Final`.
abbrev pub Classified : {A : Type 0} → Type 0 → Outcome A → Type 0
Classified Final (ok a w) = Unit
Classified Final (err (hcm_error transient code text) w) = Unit
Classified Final (err (hcm_error permanent code text) w) = Final
Classified Final (err e w) = ⊥

-- The server has answered with a status that means a refusal: no success, below 500, and not 429.
abbrev pub Refusal : {A : Type 0} → Outcome (HttpResponse A) → Type 0
Refusal (ok res w) = (res.is_ok ≡ false) × (res.status < 500) × ((res.status == 429) ≡ false)
Refusal (err e w) = ⊥

-- `fetch` and `json()` raise no exception of the HCM system.
abbrev pub IsForeignError : AppError → Type 0
IsForeignError (hcm_error category code text) = ⊥
IsForeignError e = Unit

abbrev pub IsForeign : {A : Type 0} → Outcome A → Type 0
IsForeign (ok a w) = Unit
IsForeign (err e w) = IsForeignError e

abbrev pub HasForeignAnswer : {A : Type 0} → Outcome (HttpResponse A) → Type 0
HasForeignAnswer (ok res w) = IsForeign (res.answer w)
HasForeignAnswer (err e w) = IsForeignError e

module _ (texts : HttpTexts) (message : AppError → Text) (A : Type 0) where
  foreign_error :
      (F : Type 0) (e : AppError) (w : World)
      → IsForeignError e
      → Classified F (handle_error texts message {A = A} e w)
  unfolding handle_error
  foreign_error F (hcm_error category code text) w h = absurd h
  foreign_error F _ w h = tt

  caught :
      (F : Type 0) (r : Outcome A)
      → IsForeign r
      → Classified F (elim r as (λ _. Outcome A) [
        | ok a w ↦ ok a w
        | err e w ↦ handle_error texts message e w
      ])
  caught F (ok a w) h = tt
  caught F (err e w) h = foreign_error F e w h

  answered :
      (r : Outcome (HttpResponse A))
      → HasForeignAnswer r
      → Classified
          (Refusal r)
          (elim (elim r as (λ _. Outcome A) [
            | ok res w ↦ handle_response texts message res w
            | err e w ↦ err e w
          ])
            as (λ _. Outcome A) [ ok a w ↦ ok a w | err e w ↦ handle_error texts message e w ])
  unfolding handle_response handle_error
  answered (err e w) h = foreign_error ⊥ e w h
  answered (ok res w) h = elim (Bool-cases res.is_ok) [
    | inl good ↦ rw (good, Classified) (caught (Refusal (ok res w)) (res.answer w) h)
    | inr bad ↦ elim (Bool-cases (leb 500 res.status || res.status == 429)) [
      | inl again ↦ rw (bad, again, Classified) tt
      | inr final ↦ rw (bad, final, Classified) (bad, ground arith, ground arith)
    ]
  ]

  -- A call over HTTP ends with an answer or an exception of the HCM system, if `fetch` and `json()`
  -- raise none themselves; and the exception is permanent, so that the outbox does not try again,
  -- only if the server has answered with a failure below 500 other than 429.
  pub send_call-Classified :
      (fetched : M (HttpResponse A)) (w : World)
      → HasForeignAnswer (fetched w)
      → Classified (Refusal (fetched w)) (send_call texts message fetched w)
  unfolding send_call
  send_call-Classified fetched w h = answered (fetched w) h
