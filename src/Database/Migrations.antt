-- ===== src/Database/Migrations.antt =====
-- What a run of the migrations of src/database/migrations/index.ts leaves.
use readyon.Base.{
  ℕ, Bool, true, ◌||◌, ◌==◌, ==_self, ==_iff, Bool-cases, Option, Option-cases, none, some, List,
  [], ◌∷◌, ◌++◌, if◌then◌else◌, any, ◌≡◌, refl, sym, ap, ◌∙◌, inl, inr, arith,
}
use readyon.Store.{Db}
use readyon.Database.{
  Migration, Tracked, Migrated, migrated, failed_at, includes, apply_migration, apply_all,
  run_migrations, reset_database,
}

-- The versions that are not recorded, in the order of the migrations.
pub pending : List ℕ → List Migration → List ℕ
pending applied [] = []
pending applied (m ∷ ms) =
    if includes applied m.version then pending applied ms else m.version ∷ pending applied ms

-- A property of the state that a run ends in, if it does not throw.
abbrev pub Finishes : {S : Type 0} → (Tracked S → Type 0) → Migrated S → Type 0
Finishes P (migrated t) = P t
Finishes P (failed_at v t) = Unit

weaken :
    {S : Type 0} (P Q : Tracked S → Type 0) (r : Migrated S)
    → Finishes P r
    → ((t : Tracked S) → P t → Q t)
    → Finishes Q r
weaken P Q (migrated t) h k = k t h
weaken P Q (failed_at v t) h k = tt

any-append : (p : ℕ → Bool) (xs ys : List ℕ) → any p (xs ++ ys) ≡ any p xs || any p ys
unfolding any
any-append p [] ys = refl
any-append p (x ∷ xs) ys = ground (arith, any-append p xs ys)

includes-last : (xs ys : List ℕ) (v : ℕ) → includes (xs ++ v ∷ ys) v ≡ true
unfolding any
includes-last xs ys v = ground (arith, any-append (λ x. x == v) xs (v ∷ ys), ==_self v)

includes-more :
    (xs ys : List ℕ) (x v : ℕ) → includes (xs ++ ys) v ≡ true → includes (xs ++ x ∷ ys) v ≡ true
unfolding any
includes-more xs ys x v h =
    ground (arith, any-append (λ y. y == v) xs ys, any-append (λ y. y == v) xs (x ∷ ys))

append_assoc : (xs ys zs : List ℕ) → (xs ++ ys) ++ zs ≡ xs ++ (ys ++ zs)
append_assoc [] ys zs = refl
append_assoc (x ∷ xs) ys zs = ap (λ l. x ∷ l) (append_assoc xs ys zs)

append_nil : (xs : List ℕ) → xs ++ [] ≡ xs
append_nil [] = refl
append_nil (x ∷ xs) = ap (λ l. x ∷ l) (append_nil xs)

module _ {S : Type 0} (exec : Migration → S → Option S) where
  nothing_done : (t : Tracked S) → none ≡ some t → ⊥
  nothing_done t h = ground arith

  applied_same : (t t' : Tracked S) → some t ≡ some t' → t.applied ≡ t'.applied
  applied_same t t' h = ground arith

  schema_same : (t t' : Tracked S) → some t ≡ some t' → t.schema ≡ t'.schema
  schema_same t t' h = ap (λ o. elim o as (λ _. S) [ none ↦ t.schema | some u ↦ u.schema ]) h

  nothing_there : {s : S} → none ≡ some s → ⊥
  nothing_there h = ground arith

  applied_one :
      (m : Migration) (t t' : Tracked S)
      → apply_migration exec m t ≡ some t'
      → t'.applied ≡ t.applied ++ m.version ∷ []
  unfolding apply_migration
  applied_one m t t' h = elim (Option-cases (exec m t.schema)) [
    | inl refused ↦ absurd (nothing_done t' (rw (refused, apply_migration) at h))
    | inr (s, done) ↦ elim (Bool-cases (includes t.applied m.version)) [
      | inl known ↦ absurd (nothing_done t' (rw (done, known, apply_migration) at h))
      | inr new ↦ sym (applied_same _ t' (rw (done, new, apply_migration) at h))
    ]
  ]

  apply_all-pending :
      (applied : List ℕ) (ms : List Migration) (t : Tracked S)
      → Finishes (λ t'. t'.applied ≡ t.applied ++ pending applied ms) (apply_all exec applied ms t)
  unfolding apply_all pending
  apply_all-pending applied [] t = sym (append_nil t.applied)
  apply_all-pending applied (m ∷ ms) t = elim (Bool-cases (includes applied m.version)) [
    | inl known ↦ rw known (apply_all-pending applied ms t)
    | inr new ↦ elim (Option-cases (apply_migration exec m t)) [
      | inl refused ↦ rw (new, refused) tt
      | inr (t', done) ↦
          rw (new, done)
            (weaken _ _ (apply_all exec applied ms t') (apply_all-pending applied ms t') (λ t'' e.
              e
              ∙ ap (λ l. l ++ pending applied ms) (applied_one m t t' done)
              ∙ append_assoc t.applied (m.version ∷ []) (pending applied ms)))
    ]
  ]

  -- All versions are recorded.
  AllIn : List ℕ → List Migration → Type 0
  AllIn versions [] = Unit
  AllIn versions (m ∷ ms) = (includes versions m.version ≡ true) × AllIn versions ms

  nothing_left :
      (applied : List ℕ) (ms : List Migration) (t : Tracked S)
      → AllIn applied ms
      → apply_all exec applied ms t ≡ migrated t
  unfolding apply_all AllIn
  nothing_left applied [] t all = refl
  nothing_left applied (m ∷ ms) t (known, all) = rw known (nothing_left applied ms t all)

  known_or_pending :
      (applied versions : List ℕ) (ms : List Migration)
      → ((v : ℕ) → includes (applied ++ pending applied ms) v ≡ true → includes versions v ≡ true)
      → AllIn versions ms
  unfolding AllIn pending any
  known_or_pending applied versions [] h = tt
  known_or_pending applied versions (m ∷ ms) h = elim (Bool-cases (includes applied m.version)) [
    | inl known ↦
        let h' : (v : ℕ)
            → includes (applied ++ pending applied ms) v ≡ true
            → includes versions v ≡ true =
          rw known at h in
        (
          h' m.version
              (rw (any-append (λ x. x == m.version) applied (pending applied ms), known) refl),
          known_or_pending applied versions ms h',
        )
    | inr new ↦
        let h' : (v : ℕ)
            → includes (applied ++ m.version ∷ pending applied ms) v ≡ true
            → includes versions v ≡ true =
          rw new at h in
        (
          h' m.version (includes-last applied (pending applied ms) m.version),
          known_or_pending applied versions ms
              (λ v i. h' v (includes-more applied (pending applied ms) m.version v i)),
        )
  ]

  -- A run of the migrations either throws, or it has recorded, after the versions that were recorded
  -- before, those that were not, in their order; then another run changes nothing.
  pub run_migrations_once :
      (ms : List Migration) (t : Tracked S)
      → Finishes
          (λ t'.
            (t'.applied ≡ t.applied ++ pending t.applied ms)
            × (run_migrations exec ms t' ≡ migrated t'))
          (run_migrations exec ms t)
  unfolding run_migrations
  run_migrations_once ms t =
      weaken _ _ (apply_all exec t.applied ms t) (apply_all-pending t.applied ms t) (λ t' e. (
        e,
        nothing_left t'.applied ms t' (known_or_pending t.applied t'.applied ms (λ v i. rw e i)),
      ))

-- A run that throws.
abbrev pub Throws : {S : Type 0} → Migrated S → Type 0
Throws (migrated t) = ⊥
Throws (failed_at v t) = Unit

-- A migration whose columns are there is refused by SQLite, and no migration takes them away.
module _ {S : Type 0} (exec : Migration → S → Option S) (HasColumns : S → Type 0) (adding : ℕ)
    (refused : (m : Migration) (s : S) → m.version ≡ adding → HasColumns s → exec m s ≡ none)
    (kept : (m : Migration) (s s' : S) → exec m s ≡ some s' → HasColumns s → HasColumns s') where
  schema_after :
      (m : Migration) (t t' : Tracked S)
      → apply_migration exec m t ≡ some t'
      → exec m t.schema ≡ some t'.schema
  unfolding apply_migration
  schema_after m t t' h = elim (Option-cases (exec m t.schema)) [
    | inl none_left ↦ absurd (nothing_done exec t' (rw (none_left, apply_migration) at h))
    | inr (s, done) ↦ elim (Bool-cases (includes t.applied m.version)) [
      | inl known ↦ absurd (nothing_done exec t' (rw (done, known, apply_migration) at h))
      | inr new ↦ done ∙ ap some (schema_same exec _ t' (rw (done, new, apply_migration) at h))
    ]
  ]

  apply_again-Throws :
      (ms : List Migration) (t : Tracked S)
      → any (λ m. m.version == adding) ms ≡ true
      → HasColumns t.schema
      → Throws (apply_all exec [] ms t)
  unfolding apply_all any
  apply_again-Throws [] t there columns = ground arith
  apply_again-Throws (m ∷ ms) t there columns = elim (Option-cases (apply_migration exec m t)) [
    | inl none_left ↦ rw none_left tt
    | inr (t', done) ↦ elim (Bool-cases (m.version == adding)) [
      | inl this ↦ absurd (
          nothing_there exec (
            sym (refused m t.schema ((==_iff m.version adding).0 this) columns)
            ∙ schema_after m t t' done))
      | inr other ↦ rw done (
          apply_again-Throws ms t' (rw other at there)
            (kept m t.schema t'.schema (schema_after m t t' done) columns))
    ]
  ]

  -- If a migration adds columns, SQLite refuses to add columns that are there, and no migration
  -- drops them, then after `resetDatabase` on a database that has them a run of the migrations
  -- throws: the versions are no longer recorded.
  pub reset_database-Throws :
      (db : Db) (ms : List Migration) (t : Tracked S)
      → any (λ m. m.version == adding) ms ≡ true
      → HasColumns t.schema
      → Throws (run_migrations exec ms (reset_database db t).1)
  unfolding run_migrations reset_database
  reset_database-Throws db ms t there columns =
      apply_again-Throws ms (reset_database db t).1 there columns
