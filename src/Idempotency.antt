-- ===== src/Idempotency.antt =====
-- src/idempotency/idempotency.service.ts, and the way in which the controllers use it.
pub mod Replay
use readyon.Base.{
  ℕ, ◌+◌, Bool, true, false, not, ◌&&◌, Option, none, some, List, [], ◌∷◌, ◌++◌, ltb, leb, ◌==◌, ⊤,
  if◌then◌else◌, find_first, any, select_where, count_where,
}
use readyon.Types.{Text, IdempotencyRow, is_given, or_default, empty_text}
use readyon.Errors.{validation_exception, duplicate_request_exception}
use readyon.Store.{Db, World, M, pure, raise, raise_if, gets, ask, modify, now_iso, ◌>>=◌, ◌>>◌}

-- `key = ? AND expires_at > ?`
abbrev pub is_valid : Text → Text → IdempotencyRow → Bool
is_valid key now k = k.key == key && ltb now k.expires_at

-- The stored response, its status code and the hash of its payload.
unfoldable pub check : Text → World → Option IdempotencyRow
check key w = find_first (is_valid key (now_iso w)) w.db.keys

abbrev pub day_ms : ℕ
day_ms = 86400000

abbrev pub new_key : Text → Text → Text → ℕ → World → IdempotencyRow
new_key key payload_hash response status_code w = record {
  key = key;
  payload_hash = payload_hash;
  response = response;
  status_code = status_code;
  created_at = now_iso w;
  expires_at = w.iso (w.clock_ms + day_ms);
}

-- `INSERT OR IGNORE`: a row that has the key stays, expired or not.
unfoldable pub store : Text → Text → Text → ℕ → M ⊤
store key payload_hash response status_code w =
    modify
      (λ db. record db {
        keys =
            if any (λ (k : IdempotencyRow). k.key == key) db.keys
            then db.keys
            else db.keys ++ new_key key payload_hash response status_code w ∷ [];
      })
      w

unfoldable pub cleanup : M ℕ
cleanup = do
  now ← ask now_iso
  changes ← gets (λ db. count_where (λ (k : IdempotencyRow). leb k.expires_at now) db.keys)
  modify (λ db. record db {
    keys = select_where (λ (k : IdempotencyRow). not (leb k.expires_at now)) db.keys;
  })
  pure changes

-- A handler that is guarded by the header 'idempotency-key'. `hash` is `hashPayload` of the body,
-- `json` the response text of a result.
module _ {A : Type 0} (json : A → Text) (hash : Text) (status_code : ℕ) (operation : M A) where
  answer_stored : Text → IdempotencyRow → M Text
  answer_stored key k = do
    raise_if (not (k.payload_hash == hash)) (duplicate_request_exception key)
    pure k.response

  answer_new : Text → M Text
  answer_new key = do
    result ← operation
    store key hash (json result) status_code
    pure (json result)

  answer : Text → Option IdempotencyRow → M Text
  unfolding answer_stored answer_new
  answer key (some k) = answer_stored key k
  answer key none = answer_new key

  unfoldable pub idempotent : Option Text → M Text
  unfolding answer
  idempotent header = do
    raise_if (not (is_given header)) validation_exception
    let key = or_default header empty_text
    existing ← ask (check key)
    answer key existing
