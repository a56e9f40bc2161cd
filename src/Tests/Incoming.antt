-- ===== src/Tests/Incoming.antt =====
-- Examples of a balance that the HCM system sends, and of a call over HTTP.
use readyon.Base.{refl, none, pos, ℕ, false}
use readyon.Errors.{AppError, type_error}
use readyon.Store.{ok, pure, raise, IsAtomic, run_in_transaction}
use readyon.Integration.{SingleBalanceUpdateDto, update_balance_tx}
use readyon.Integration.Update.{Accepted, update_balance-IsAtomic}
use readyon.Hcm.HttpAdapter.{HttpResponse, HttpTexts, send_call}
use readyon.Hcm.HttpAdapter.Errors.{Classified, Refusal, send_call-Classified}
use readyon.Tests.Office.{office, tables}

abbrev dto : SingleBalanceUpdateDto
dto = record {
  employee_id = 5;
  leave_type = 7;
  location = none;
  total_balance = pos 48;
  used_balance = pos 8;
  hcm_version = 4;
}

update_balance-IsAtomic_example :
    IsAtomic tables
      (Accepted (pure tt) dto none office)
      (run_in_transaction (update_balance_tx (pure tt) dto none) office)
update_balance-IsAtomic_example = update_balance-IsAtomic (pure tt) dto none office (λ v. refl)

abbrev texts : HttpTexts
texts = record {
  unknown_error = 2;
  network_error = 3;
  transient_code = 4;
  permanent_code = 5;
  network_code = 6;
}

abbrev message : AppError → ℕ
message _ = 9

-- 422 with a body that is no JSON.
abbrev refusal : HttpResponse ℕ
refusal = record { is_ok = false; status = 422; answer = raise type_error; problem = none }

send_call-Classified_example :
    Classified (Refusal (ok refusal office)) (send_call texts message (pure refusal) office)
send_call-Classified_example = send_call-Classified texts message ℕ (pure refusal) office tt
