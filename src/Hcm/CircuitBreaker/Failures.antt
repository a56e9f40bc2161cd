-- ===== src/Hcm/CircuitBreaker/Failures.antt =====
-- What opens the circuit breaker, and what closes it, over any sequence of calls.
use readyon.Base.{ℕ, suc, ◌+◌, ◌≤◌, ◌<◌, ◌≡◌, refl, ◌∙◌, ◌⊎◌, List, [], ◌∷◌, length, arith}
use readyon.Hcm.CircuitBreaker.{
  CircuitBreaker, closed, open_circuit, Admission, admitted, refused, ensure_closed, record_success,
  record_failure, new_breaker,
}

-- A call to the HCM system, at its time, and how it ends.
pub data Event : Type 0 where
  succeeds fails : ℕ → Event

abbrev pub at : Event → ℕ
at (succeeds now) = now
at (fails now) = now

-- A call that is refused reports nothing back.
abbrev report : Event → Admission × CircuitBreaker → CircuitBreaker
report e (refused, b) = b
report (succeeds now) (admitted, b) = record_success b
report (fails now) (admitted, b) = record_failure b now

pub call : CircuitBreaker → Event → CircuitBreaker
call b e = report e (ensure_closed b (at e))

pub run : CircuitBreaker → List Event → CircuitBreaker
run b [] = b
run b (e ∷ es) = run (call b e) es

-- While the breaker is closed it has seen fewer failures in a row than the threshold; while it is
-- open or half open it has seen a failure.
pub record Inv (b : CircuitBreaker) : Type 0 where
  pub some_threshold : 1 ≤ b.failure_threshold
  pub below : b.state ≡ closed → b.consecutive_failures < b.failure_threshold
  pub tripped : (b.state ≡ closed) ⊎ (1 ≤ b.consecutive_failures)

call-Inv : (b : CircuitBreaker) (e : Event) → Inv b → Inv (call b e)
unfolding call ensure_closed record_success record_failure
call-Inv b (succeeds now) v = ground arith
call-Inv b (fails now) v = ground arith

run-Inv : (b : CircuitBreaker) (es : List Event) → Inv b → Inv (run b es)
unfolding run
run-Inv b [] v = v
run-Inv b (e ∷ es) v = run-Inv (call b e) es (call-Inv b e v)

-- Over any sequence of calls from the start, a breaker that is closed has seen fewer failures in a
-- row than its threshold, and one that is not has seen at least one.
pub run-new_breaker-Inv :
    (threshold cooldown : ℕ) (es : List Event)
    → 1 ≤ threshold
    → Inv (run (new_breaker threshold cooldown) es)
unfolding new_breaker
run-new_breaker-Inv threshold cooldown es h = run-Inv _ es (ground arith)

-- Failures at any times, and a last one.
abbrev pub fail_at : List ℕ → ℕ → List Event
fail_at [] last = fails last ∷ []
fail_at (now ∷ times) last = fails now ∷ fail_at times last

abbrev IsCounting : ℕ → CircuitBreaker → Type 0
IsCounting n b = (b.state ≡ closed) × (b.consecutive_failures + n ≡ b.failure_threshold)

-- Open since a failure at a time, with a cooldown.
abbrev pub IsOpenSince : ℕ → ℕ → CircuitBreaker → Type 0
IsOpenSince now cooldown b =
    (b.state ≡ open_circuit) × (b.last_failure_time ≡ now) × (b.cooldown_ms ≡ cooldown)

call-IsCounting :
    (n now : ℕ) (b : CircuitBreaker)
    → IsCounting (suc (suc n)) b
    → IsCounting (suc n) (call b (fails now)) × ((call b (fails now)).cooldown_ms ≡ b.cooldown_ms)
unfolding call ensure_closed record_failure
call-IsCounting n now b h = ground arith

call-IsOpenSince :
    (now : ℕ) (b : CircuitBreaker)
    → IsCounting 1 b
    → IsOpenSince now b.cooldown_ms (call b (fails now))
unfolding call ensure_closed record_failure
call-IsOpenSince now b h = ground arith

trips :
    (times : List ℕ) (last cooldown : ℕ) (b : CircuitBreaker)
    → IsCounting (suc (length times)) b
    → b.cooldown_ms ≡ cooldown
    → IsOpenSince last cooldown (run b (fail_at times last))
unfolding run
trips [] last cooldown b h e = rw (← e) (call-IsOpenSince last b h)
trips (now ∷ times) last cooldown b h e =
    let (counting, kept) = call-IsCounting (length times) now b h in
    trips times last cooldown (call b (fails now)) counting (kept ∙ e)

-- Calls that all begin before a time.
abbrev pub AllBefore : ℕ → List Event → Type 0
AllBefore t [] = Unit
AllBefore t (e ∷ es) = (at e < t) × AllBefore t es

call_blocked :
    (now cooldown : ℕ) (b : CircuitBreaker) (e : Event)
    → IsOpenSince now cooldown b
    → at e < now + cooldown
    → call b e ≡ b
unfolding call ensure_closed
call_blocked now cooldown b e h early = ground arith

blocked :
    (now cooldown : ℕ) (b : CircuitBreaker) (es : List Event)
    → IsOpenSince now cooldown b
    → AllBefore (now + cooldown) es
    → run b es ≡ b
unfolding run
blocked now cooldown b [] h early = refl
blocked now cooldown b (e ∷ es) h early =
    rw (call_blocked now cooldown b e h early.0) (blocked now cooldown b es h early.1)

start : (n cooldown : ℕ) → IsCounting (suc n) (new_breaker (suc n) cooldown)
unfolding new_breaker
start n cooldown = ground arith

kept : (n cooldown : ℕ) → (new_breaker (suc n) cooldown).cooldown_ms ≡ cooldown
unfolding new_breaker
kept n cooldown = refl

-- As many failures in a row as the threshold says, each at any time, open a new breaker, and until
-- the cooldown has passed since the last of them no call changes it: all are refused.
pub failures_open :
    (times : List ℕ) (last cooldown : ℕ) (es : List Event)
    → AllBefore (last + cooldown) es
    → IsOpenSince last cooldown
        (run (run (new_breaker (suc (length times)) cooldown) (fail_at times last)) es)
failures_open times last cooldown es early =
    let n = length times in
    let b = new_breaker (suc n) cooldown in
    let opened = trips times last cooldown b (start n cooldown) (kept n cooldown) in
    rw (blocked last cooldown (run b (fail_at times last)) es opened early) opened

-- Once the cooldown has passed, one call decides: its success closes the breaker and clears the
-- count, and its failure opens it for another cooldown.
pub cooldown_decides :
    (now cooldown later : ℕ) (b : CircuitBreaker)
    → IsOpenSince now cooldown b
    → now + cooldown ≤ later
    → ((call b (succeeds later)).state ≡ closed)
      × ((call b (succeeds later)).consecutive_failures ≡ 0)
      × IsOpenSince later cooldown (call b (fails later))
unfolding call ensure_closed record_success record_failure
cooldown_decides now cooldown later b h past = ground arith

-- A breaker that is half open admits every call, as long as none has reported back: it does not
-- limit itself to one.
pub half_open_admits_all :
    (b : CircuitBreaker) (first second : ℕ)
    → b.state ≡ open_circuit
    → b.last_failure_time + b.cooldown_ms ≤ first
    → let (a, b') = ensure_closed b first in
      (a ≡ admitted) × ((ensure_closed b' second).0 ≡ admitted)
unfolding ensure_closed
half_open_admits_all b first second h past = ground arith
