-- ===== src/Store.antt =====
-- The database and its transactions (src/database/database.service.ts), the identifiers and the
-- clock (src/common/utils/index.ts), as a monad of state and exceptions. What was written before
-- an exception stays written, unless a transaction rolls it back.
pub mod Returns
use Prim.Native.Nat.{◌*◌, ◌^◌, min}
use readyon.Base.{ℕ, ◌+◌, ⊤, Bool, ◌≡◌, Option, none, some, List, if◌then◌else◌}
use readyon.Types.{
  Text, BalanceProjectionRow, TimeOffRequestRow, BalanceHoldRow, IntegrationOutboxRow,
  IntegrationBatchRow, AuditLogRow, IdempotencyRow,
}
use readyon.Errors.{AppError}

-- The tables that the migrations create; the only checkpoint has the key 'hcm_batch_checkpoint'.
pub record Db : Type 0 where
  pub projections : List BalanceProjectionRow
  pub requests : List TimeOffRequestRow
  pub holds : List BalanceHoldRow
  pub entries : List IntegrationOutboxRow
  pub batches : List IntegrationBatchRow
  pub audits : List AuditLogRow
  pub keys : List IdempotencyRow
  pub checkpoint : Option Text

-- `uuid` is the sequence of values that uuid's `v4` returns, and `drawn` counts those used.
-- `clock_ms` is `Date.now()`, the same throughout one operation; `iso` is `toISOString` of such a
-- time, `day` its part before the 'T', and `jitter_ms` is `Math.random() * 5_000`.
pub record World : Type 0 where
  pub db : Db
  pub uuid : ℕ → Text
  pub drawn : ℕ
  pub clock_ms : ℕ
  pub iso : ℕ → Text
  pub day : ℕ → Text
  pub jitter_ms : ℕ

-- `nowISO`, whose replacements change nothing.
abbrev pub now_iso : World → Text
now_iso w = w.iso w.clock_ms

unfoldable pub backoff_delay_ms : ℕ → ℕ → ℕ
backoff_delay_ms retry_count jitter_ms = min (10000 * 3 ^ retry_count + jitter_ms) 900000

-- `calculateExponentialBackoff(retryCount).toISOString()`
unfoldable pub calculate_exponential_backoff : ℕ → World → Text
calculate_exponential_backoff retry_count w =
    w.iso (w.clock_ms + backoff_delay_ms retry_count w.jitter_ms)

-- How an operation ends, with the state that it leaves.
pub data Outcome (A : Type 0) : Type 0 where
  ok : A → World → Outcome A
  err : AppError → World → Outcome A

abbrev pub M : Type 0 → Type 0
M A = World → Outcome A

module _ {A : Type 0} where
  abbrev pub pure : A → M A
  pure a w = ok a w

  abbrev pub raise : AppError → M A
  raise e w = err e w

  abbrev pub gets : (Db → A) → M A
  gets f w = ok (f w.db) w

  abbrev pub ask : (World → A) → M A
  ask f w = ok (f w) w

  abbrev pub or_raise : Option A → AppError → M A
  or_raise o e w = elim o [ none ↦ err e w | some a ↦ ok a w ]

infixl 5 ◌>>=◌ ◌>>◌
abbrev pub ◌>>=◌ : {A B : Type 0} → M A → (A → M B) → M B
◌>>=◌ m f w = elim (m w) [ ok a w' ↦ f a w' | err e w' ↦ err e w' ]

abbrev pub ◌>>◌ : {A B : Type 0} → M A → M B → M B
m >> k = m >>= λ _. k

abbrev pub raise_if : Bool → AppError → M ⊤
raise_if c e w = if c then err e w else ok tt w

abbrev pub modify : (Db → Db) → M ⊤
modify f w = ok tt (record w { db = f w.db })

unfoldable pub generate_id : M Text
generate_id w = ok (w.uuid w.drawn) (record w { drawn = w.drawn + 1 })

-- How a transaction that began at `before` ends: an exception restores the tables.
abbrev pub settle : {A : Type 0} → Db → Outcome A → Outcome A
settle before r = elim r [ ok a w ↦ ok a w | err e w ↦ err e (record w { db = before }) ]

-- `DatabaseService.runInTransaction`
abbrev pub run_in_transaction : {A : Type 0} → M A → M A
run_in_transaction m w = settle w.db (m w)

-- `try { m } catch (e) { handler(e) }`
abbrev pub catch : {A : Type 0} → M A → (AppError → M A) → M A
catch m handler w = elim (m w) [ ok a w' ↦ ok a w' | err e w' ↦ handler e w' ]

-- What an operation that returns has done; nothing is said of one that raises.
abbrev pub Returns : {A : Type 0} → (A → World → Type 0) → Outcome A → Type 0
Returns P (ok a w) = P a w
Returns P (err e w) = Unit

-- An operation that raises leaves the tables alone, and one that returns meets `P`.
abbrev pub IsAtomic : {A : Type 0} → Db → (A → World → Type 0) → Outcome A → Type 0
IsAtomic before P (ok a w) = P a w
IsAtomic before P (err e w) = w.db ≡ before

-- The operation returns.
abbrev pub Succeeds : {A : Type 0} → Outcome A → Type 0
Succeeds (ok a w) = Unit
Succeeds (err e w) = ⊥

-- The operation returns, and meets `P`.
abbrev pub Ensures : {A : Type 0} → (A → World → Type 0) → Outcome A → Type 0
Ensures P (ok a w) = P a w
Ensures P (err e w) = ⊥
