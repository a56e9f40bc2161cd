-- ===== src/Tests/Servers.antt =====
-- An example of the mock server: a post without hours.
use readyon.Base.{
  pos, none, some, [], ◌∷◌, ◌≡◌, refl, find_first, ◌-ℤ◌, ◌+ℤ◌, set_entry, update_where, any,
}
use readyon.Types.{Text}
use readyon.MockServer.Rules.{check_rules}
use readyon.MockServer.State.{
  whole, Balance, Server, Body, HoursField, missing_hours, integer, Moment, Response,
  accepted_reply, respond,
}
use readyon.MockServer.Handlers.{handle_post_time_off}
use readyon.MockServer.Unknown.{posts, handle_all}
use readyon.MockServer.Hours.{missing_hours_unlimited}

abbrev forty : Balance
forty = record {
  employee_id = 5;
  leave_type = 7;
  total_balance = whole (pos 40);
  used_balance = whole (pos 8);
  hcm_version = 3;
}

abbrev server : Server
server = record {
  balances = forty ∷ [];
  idempotency_store = [];
  deductions = [];
  failure_rules = [];
  request_log = [];
  global_delay = 0;
}

abbrev body : Text → HoursField → Body
body key hours = record {
  idempotency_key = some key;
  employee_id = some 5;
  leave_type = some 7;
  hours = hours;
  start_date = none;
  end_date = none;
  hcm_reference_id = none;
}

abbrev moment : Moment
moment = record { iso = 100; later_iso = 101; fresh_id = 41 }

abbrev answer : Response
answer = respond 200 (accepted_reply 41 100)

-- A post of no hours, one of three, and one of far too many.
missing_hours_unlimited_example :
    (handle_post_time_off 1 (body 62 (integer (pos 9000))) moment (
      handle_all 1
        (posts (body 63 (integer (pos 3))) moment ∷ [])
        (handle_post_time_off 1 (body 61 missing_hours) moment server).1)).0
    ≡ answer
unfolding handle_post_time_off find_first ◌-ℤ◌ ◌+ℤ◌ set_entry update_where any check_rules
missing_hours_unlimited_example =
    missing_hours_unlimited 1 (body 61 missing_hours) moment server [] forty (refl, refl) refl refl
      (posts (body 63 (integer (pos 3))) moment ∷ []) (body 62 (integer (pos 9000))) moment []
      (pos 9000) refl refl refl (refl, refl)
