-- ===== src/Tests/Installing.antt =====
-- Examples of migrations: two of them, the second of which adds columns.
use readyon.Base.{
  Bool, true, false, ◌==◌, if◌then◌else◌, Option, none, some, List, [], ◌∷◌, ◌++◌, ◌≡◌, refl, any,
  arith,
}
use readyon.Database.{Migration, Tracked, migrated, run_migrations, reset_database}
use readyon.Database.Migrations.{
  Finishes, pending, run_migrations_once, Throws, reset_database-Throws,
}
use readyon.Tests.Office.{tables}

abbrev create_tables : Migration
create_tables = record { version = 1; name = 2 }

abbrev add_location : Migration
add_location = record { version = 9; name = 3 }

abbrev both : List Migration
both = create_tables ∷ add_location ∷ []

-- A schema says if it has the columns; adding them twice is refused.
abbrev exec : Migration → Bool → Option Bool
exec m true = if m.version == 9 then none else some true
exec m false = some (if m.version == 9 then true else false)

abbrev HasColumns : Bool → Type 0
HasColumns has = has ≡ true

refuses : (m : Migration) (s : Bool) → m.version ≡ 9 → HasColumns s → exec m s ≡ none
refuses m s nine has = ground arith

keeps : (m : Migration) (s s' : Bool) → exec m s ≡ some s' → HasColumns s → HasColumns s'
keeps m s s' done has = ground arith

abbrev empty_schema : Tracked Bool
empty_schema = record { schema = false; applied = 1 ∷ [] }

abbrev full_schema : Tracked Bool
full_schema = record { schema = true; applied = 1 ∷ 9 ∷ [] }

run_migrations_once_example :
    Finishes
      (λ t.
        (t.applied ≡ (1 ∷ []) ++ pending (1 ∷ []) both) × (run_migrations exec both t ≡ migrated t))
      (run_migrations exec both empty_schema)
run_migrations_once_example = run_migrations_once exec both empty_schema

reset_database-Throws_example :
    Throws (run_migrations exec both (reset_database tables full_schema).1)
unfolding any
reset_database-Throws_example =
    reset_database-Throws exec HasColumns 9 refuses keeps tables both full_schema refl refl
