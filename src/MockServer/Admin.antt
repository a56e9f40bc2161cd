-- ===== src/MockServer/Admin.antt =====
-- `handleAdmin` of src/mock-hcm-server/server.ts.
use readyon.Base.{
  ℕ, ℤ, pos, ◌-◌, ◌==◌, Option, none, some, List, [], ◌∷◌, ◌++◌, map, if◌then◌else◌, length,
  set_entry,
}
use readyon.Types.{Text, or_default, or_null}
use readyon.MockServer.Rules.{RuleMode, transient_mode, OperationName, unknown_endpoint}
use readyon.MockServer.State.{
  Amount, whole, error_reply, balances_reply, deductions_reply, log_reply, stats_reply, done_reply,
  rules_reply, delay_reply, Response, LoggedRequest, Server, Moment, is_key, respond,
}

-- The method and the path of an admin request, with the fields of its body.
pub data AdminRequest : Type 0 where
  -- employee_id and leave_type as texts, total, used, version; a number that does not parse is NaN
  set_balance : Text → Text → Amount → Option Amount → Option Text → AdminRequest
  list_balances : AdminRequest
  -- mode, countdown, failure_count, operation, employee_id
  add_rule :
      Option RuleMode → Option ℕ → Option ℤ → Option OperationName → Option Text → AdminRequest
  clear_rules : AdminRequest
  set_delay : Option ℕ → AdminRequest
  list_deductions show_log reset_all show_stats : AdminRequest
  other_admin : AdminRequest

-- `x || d` on numbers.
abbrev or_number : Option ℕ → ℕ → ℕ
or_number none d = d
or_number (some n) d = if n == 0 then d else n

abbrev or_count : Option ℤ → ℤ
or_count none = pos 1
or_count (some (pos n)) = if n == 0 then pos 1 else pos n
or_count (some n) = n

abbrev or_mode : Option RuleMode → RuleMode
or_mode none = transient_mode
or_mode (some m) = m

abbrev or_zero : Option Amount → Amount
or_zero none = whole (pos 0)
or_zero (some a) = a

-- `slice(-50)`
abbrev drop_first {ℓ} : {A : Type ℓ} → ℕ → List A → List A
drop_first n [] = []
drop_first n (x ∷ xs) = if n == 0 then x ∷ xs else drop_first (n - 1) xs

abbrev log_line : LoggedRequest → Text × Text × ℕ
log_line r = (r.method, r.path, r.status)

abbrev pub no_server : Server
no_server = record {
  balances = [];
  idempotency_store = [];
  deductions = [];
  failure_rules = [];
  request_log = [];
  global_delay = 0;
}

unfoldable pub handle_admin : AdminRequest → Moment → Server → Response × Server
handle_admin (set_balance e t total used version) now s = (
  respond 200 done_reply,
  record s {
    balances =
        set_entry (is_key e t)
          (record {
            employee_id = e;
            leave_type = t;
            total_balance = total;
            used_balance = or_zero used;
            hcm_version = or_default version now.iso;
          })
          s.balances;
  },
)
handle_admin list_balances now s = (respond 200 (balances_reply s.balances), s)
handle_admin (add_rule m countdown count operation employee_id) now s =
    let rules =
      s.failure_rules
      ++ record {
        mode = or_mode m;
        countdown = or_number countdown 0;
        failure_count = or_count count;
        operation = operation;
        employee_id = or_null employee_id;
      }
        ∷ [] in
    (respond 200 (rules_reply (length rules)), record s { failure_rules = rules })
handle_admin clear_rules now s = (respond 200 done_reply, record s { failure_rules = [] })
handle_admin (set_delay ms) now s =
    (respond 200 (delay_reply (or_number ms 0)), record s { global_delay = or_number ms 0 })
handle_admin list_deductions now s = (respond 200 (deductions_reply s.deductions), s)
handle_admin show_log now s = (
  respond 200 (log_reply (map log_line (drop_first (length s.request_log - 50) s.request_log))),
  s,
)
handle_admin reset_all now s = (respond 200 done_reply, no_server)
handle_admin show_stats now s = (
  respond 200 (
      stats_reply (length s.balances) (length s.deductions) (length s.idempotency_store)
        (length s.failure_rules) (length s.request_log) s.global_delay),
  s,
)
handle_admin other_admin now s = (respond 404 (error_reply unknown_endpoint), s)
