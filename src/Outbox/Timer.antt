-- ===== src/Outbox/Timer.antt =====
-- `OutboxProcessor.processOutbox` in src/integration/outbox/outbox.processor.ts.
use readyon.Base.{⊤, Bool, true, false}
use readyon.Types.{Text}
use readyon.Errors.{AppError}
use readyon.Store.{World, Outcome, ok, pure, ◌>>◌}
use readyon.Hcm.Port.{HcmAdapterPort}
use readyon.Outbox.Processor.{sweep}

-- How the timer's call ends, with the flag `processing` then: another call that comes while this one
-- awaits the HCM system finds the flag set.
unfoldable pub process_outbox : HcmAdapterPort → (AppError → Text) → Bool → World → Outcome ⊤ × Bool
process_outbox port message true w = (ok tt w, true)
process_outbox port message false w = ((sweep port message >> pure tt) w, false)
