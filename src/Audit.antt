-- ===== src/Audit.antt =====
-- src/audit/audit.service.ts
use readyon.Base.{
  Option, List, [], ◌∷◌, ◌++◌, ⊤, leb, Bool, ◌&&◌, ◌==◌, order_by, select_where, true, false,
}
use readyon.Types.{
  Text, AuditLogRow, AuditAction, EntityId, EntityType, ActorType, ActorId, Snapshot, Metadata,
  or_null, request, balance, hold, outbox, batch, id_of, pair_of, triple_of,
}
use readyon.Store.{Db, M, ask, modify, generate_id, ◌>>=◌, now_iso}

pub record CreateAuditLogParams : Type 0 where
  pub entity_type : EntityType
  pub entity_id : EntityId
  pub action : AuditAction
  pub actor_type : ActorType
  pub actor_id : ActorId
  pub before_state : Option Snapshot
  pub after_state : Option Snapshot
  pub metadata : Option Metadata
  pub correlation_id : Option Text

-- `log`; `logInTransaction` is the same call.
unfoldable pub log : CreateAuditLogParams → M ⊤
unfolding generate_id
log params = do
  id ← generate_id
  now ← ask now_iso
  let row : AuditLogRow = record {
    id = id;
    entity_type = params.entity_type;
    entity_id = params.entity_id;
    action = params.action;
    actor_type = params.actor_type;
    actor_id = params.actor_id;
    before_state = params.before_state;
    after_state = params.after_state;
    metadata = params.metadata;
    correlation_id = or_null params.correlation_id;
    created_at = now;
  }
  modify (λ db. record db { audits = db.audits ++ row ∷ [] })

abbrev pub same_entity_type : EntityType → EntityType → Bool
same_entity_type request request = true
same_entity_type balance balance = true
same_entity_type hold hold = true
same_entity_type outbox outbox = true
same_entity_type batch batch = true
same_entity_type _ _ = false

abbrev pub same_entity_id : EntityId → EntityId → Bool
same_entity_id (id_of a) (id_of b) = a == b
same_entity_id (pair_of a b) (pair_of c d) = a == c && b == d
same_entity_id (triple_of a b c) (triple_of d e f) = a == d && (b == e && c == f)
same_entity_id _ _ = false

-- `ORDER BY created_at DESC`
unfoldable pub find_by_entity : EntityType → EntityId → Db → List AuditLogRow
find_by_entity entity_type entity_id db =
    order_by (λ a b. leb b.created_at a.created_at)
      (select_where
        (λ a. same_entity_type a.entity_type entity_type && same_entity_id a.entity_id entity_id)
        db.audits)
