-- ===== src/Tests/System.antt =====
-- Examples of the service's writes in a row.
use readyon.Base.{⊤, none, some, refl, pos, ◌-ℤ◌, any, find_first, arith}
use readyon.Types.{Text, transient, permanent}
use readyon.Errors.{AppError, hcm_error}
use readyon.Store.{M, World, raise, ok, run_in_transaction}
use readyon.Hcm.Port.{HcmAdapterPort, HcmPostTimeOffResponse}
use readyon.Request.Repository.{find_by_id}
use readyon.Request.Service.{create_request, cancel_request, approve_request}
use readyon.Outbox.Processor.{on_error, settle_post}
use readyon.Batch.Sync.{BatchSyncItem, process_item}
use readyon.System.{final, Steps, rest, more, cancels, approves, fails, creates, confirms, syncs}
use readyon.System.Holds.{Coherent, is_holding}
use readyon.System.Coherence.{Steps-Coherent}
use readyon.System.Rows.{Sound, is_unsound}
use readyon.System.Soundness.{Steps-Sound}
use readyon.StateMachine.{is_hold_active_status}
use readyon.System.Reserved.{Reserved}
use readyon.System.Reservations.{Steps-Reserved}
use readyon.Tests.Office.{office, tables, dto, entry}

tables-Coherent : Coherent tables
unfolding find_by_id find_first any is_holding
tables-Coherent id r found ended = ground arith

-- While a deduction is awaited, the employee cancels the request; the other calls change nothing.
abbrev pub interrupted : HcmAdapterPort
interrupted = record {
  get_balance = λ _ _ _. raise (hcm_error transient 1 2);
  post_time_off = λ _ w.
      ok (record { hcm_reference_id = some 50; hcm_version = 4 })
        (final (cancel_request 21 5 2 none none w));
  cancel_time_off = λ _. raise (hcm_error permanent 3 4);
  get_batch_balances = λ _ _. raise (hcm_error transient 1 2);
}

abbrev pub text : AppError → Text
text _ = 9

abbrev silent : M ⊤
silent w = ok tt w

abbrev trimmed : Text → Text
trimmed t = t

abbrev created_world : World
created_world = final (create_request 5 dto none office)

-- A creation, an approval, a failure of the HCM system, and a cancellation.
abbrev busy : World
busy = final (
    cancel_request 20 5 2 none none (
      final (
        on_error interrupted text entry (hcm_error permanent 3 4)
          (final (approve_request 20 6 1 none created_world)))))

busy_day : Steps trimmed interrupted text silent office busy
busy_day =
    more
      (more (more (more rest (creates 5 dto none)) (approves 20 6 1 none))
        (fails entry (hcm_error permanent 3 4)))
      (cancels 20 5 2 none none)

Steps-Coherent_example : Coherent busy.db
Steps-Coherent_example =
    Steps-Coherent trimmed interrupted text silent (λ _. refl) busy_day tables-Coherent

abbrev new_balance : BatchSyncItem
new_balance = record {
  employee_id = 5;
  leave_type = 7;
  location = none;
  total_balance = pos 30;
  used_balance = pos 25;
  hcm_version = 8;
}

tables-Reserved : Reserved tables
unfolding find_by_id find_first any is_hold_active_status
tables-Reserved id r found waits = ground arith

Steps-Reserved_example : Reserved busy.db
Steps-Reserved_example =
    Steps-Reserved trimmed interrupted text silent (λ _. refl) busy_day tables-Reserved

tables-Sound : Sound tables
unfolding any is_unsound ◌-ℤ◌
tables-Sound = refl

abbrev accepted_answer : HcmPostTimeOffResponse
accepted_answer = record { hcm_reference_id = some 55; hcm_version = 4 }

abbrev confirmed_world : World
confirmed_world = final (run_in_transaction (settle_post entry 5 7 (pos 4) accepted_answer) office)

-- A deduction is confirmed, and a batch has a newer balance.
fed_day :
    Steps trimmed interrupted text silent office (final (process_item new_balance confirmed_world))
fed_day = more (more rest (confirms entry 5 7 (pos 4) accepted_answer)) (syncs new_balance)

Steps-Sound_example : Sound (final (process_item new_balance confirmed_world)).db
Steps-Sound_example = Steps-Sound trimmed interrupted text silent (λ _. refl) fed_day tables-Sound
