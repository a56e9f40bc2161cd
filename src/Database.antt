-- ===== src/Database.antt =====
-- src/database/migrations/index.ts and src/database/database.service.ts: the runner of the
-- migrations, and the deletion of all rows.
pub mod Migrations
use readyon.Base.{ℕ, Bool, ◌==◌, Option, none, some, List, [], ◌∷◌, ◌++◌, if◌then◌else◌, any}
use readyon.Types.{Text}
use readyon.Store.{Db}

pub record Migration : Type 0 where
  pub version : ℕ
  pub name : Text

-- The tables' columns and constraints, and the versions in schema_migrations.
pub record Tracked (S : Type 0) : Type 0 where
  pub schema : S
  pub applied : List ℕ

-- The runner returns, or throws at a migration; what came before it stays.
pub data Migrated (S : Type 0) : Type 0 where
  migrated : Tracked S → Migrated S
  failed_at : ℕ → Tracked S → Migrated S

abbrev pub includes : List ℕ → ℕ → Bool
includes versions v = any (λ x. x == v) versions

-- `exec` is SQLite's `db.exec(migration.sql)`, which throws on a statement that it refuses.
module _ {S : Type 0} (exec : Migration → S → Option S) where
  -- One transaction; the version is the primary key of schema_migrations.
  unfoldable pub apply_migration : Migration → Tracked S → Option (Tracked S)
  apply_migration m t = elim (exec m t.schema) [
    | none ↦ none
    | some s ↦
        if includes t.applied m.version
        then none
        else some (record { schema = s; applied = t.applied ++ m.version ∷ [] })
  ]

  -- The loop, where `applied` was read before it.
  unfoldable pub apply_all : List ℕ → List Migration → Tracked S → Migrated S
  apply_all applied [] t = migrated t
  apply_all applied (m ∷ ms) t =
      if includes applied m.version
      then apply_all applied ms t
      else elim (apply_migration m t) as (λ _. Migrated S) [
        | none ↦ failed_at m.version t
        | some t' ↦ apply_all applied ms t'
      ]

  unfoldable pub run_migrations : List Migration → Tracked S → Migrated S
  unfolding apply_all
  run_migrations ms t = apply_all t.applied ms t

-- `DELETE FROM` each table that is not SQLite's own.
unfoldable pub reset_tables : Db → Db
reset_tables db = record {
  projections = [];
  requests = [];
  holds = [];
  entries = [];
  batches = [];
  audits = [];
  keys = [];
  checkpoint = none;
}

-- schema_migrations is such a table too.
unfoldable pub reset_database : {S : Type 0} → Db → Tracked S → Db × Tracked S
unfolding reset_tables
reset_database db t = (reset_tables db, record t { applied = [] })
