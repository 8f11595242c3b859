-- ===== src/Database/Migration.antt =====
-- src/core/database/delete-migration.service.ts: the nightly job. The raw DELETE of one table is a
-- parameter, as is the calendar of Date; log output is left out.
use nestjs_vibe_engine.Prelude.{
  ℕ, ◌+◌, String, ◌≡◌, refl, ◌∙◌, ap, Bool, true, false, Option, none, some, List, [], ◌∷◌, ◌==◌,
  if◌then◌else◌, ltb, inl, inr,
}
use nestjs_vibe_engine.Exec.{Result-cases, Exec, Result, ok, pure, try_catch, ◌>>=◌}

pub record Purge (D : Type 0) : Type 0 where
  -- DELETE FROM table WHERE deletedAt IS NOT NULL AND deletedAt < cutoff
  pub delete_expired : (table_name : String) → (cutoff : ℕ) → Exec D ℕ
  -- the time so many days before
  pub days_before : ℕ → ℕ → ℕ

abbrev pub default_retention_days : ℕ
default_retention_days = 30

abbrev pub migration_targets : List String
migration_targets = "UserSession" ∷ "User" ∷ []

-- `mode` and the parsed number of days, if it is a number, as the configuration has them.
pub record MigrationConfig : Type 0 where
  pub enabled : Bool
  pub retention_days : ℕ

unfoldable pub on_module_init : (mode : Option String) → (parsed_days : Option ℕ) → MigrationConfig
on_module_init mode parsed_days = record {
  enabled = elim mode [ none ↦ true | some m ↦ m == "internal" ];
  retention_days = elim parsed_days [
    | none ↦ default_retention_days
    | some n ↦ if ltb 0 n then n else default_retention_days
  ];
}

abbrev pub is_answer : Result (Option ℕ) → Bool
is_answer (ok (some n)) = true
is_answer _ = false

abbrev pub unexpired : ℕ → Option ℕ → Option ℕ
unexpired cutoff none = none
unexpired cutoff (some time) = if ltb time cutoff then none else some time

module _ {D : Type 0} (purge : Purge D) where
  unfoldable pub migrate_model : ℕ → String → Exec D ℕ
  migrate_model cutoff target = purge.delete_expired target cutoff

  -- The loop: a target that fails counts nothing and does not stop the others.
  unfoldable pub migrate_all : ℕ → List String → ℕ → Exec D ℕ
  migrate_all cutoff [] total = pure total
  migrate_all cutoff (target ∷ targets) total =
      try_catch (migrate_model cutoff target) (λ _. pure 0) >>= λ deleted.
      migrate_all cutoff targets (total + deleted)

  -- none where the job is disabled
  unfoldable pub handle_delete_migration : MigrationConfig → ℕ → Exec D (Option ℕ)
  handle_delete_migration config now d =
      if config.enabled
      then (migrate_all (purge.days_before config.retention_days now) migration_targets 0 >>= λ n.
            pure (some n))
          d
      else (pure none) d

  -- What the database documents of the DELETE: it removes the rows that it names and no other, and
  -- one that fails removes nothing.
  pub record PurgeLaws : Type 0 where
    -- the time of deletion of a row, if the row is there and deleted
    pub deleted : D → (table_name id : String) → Option ℕ
    pub removes :
        (d : D) (t : String) (cutoff n : ℕ) (id : String)
        → (purge.delete_expired t cutoff d).0 ≡ ok n
        → deleted (purge.delete_expired t cutoff d).1 t id ≡ unexpired cutoff (deleted d t id)
    pub keeps :
        (d : D) (t u : String) (cutoff : ℕ) (id : String)
        → (t == u) ≡ false
        → deleted (purge.delete_expired t cutoff d).1 u id ≡ deleted d u id

module _ {D : Type 0} (purge : Purge D) (laws : PurgeLaws purge) where
  -- One target of the loop, whether or not it fails.
  target-runs :
      (cutoff : ℕ) (target : String) (targets : List String) (total : ℕ) (d : D)
      → (n : ℕ) × (migrate_all purge cutoff (target ∷ targets) total d
          ≡ migrate_all purge cutoff targets (total + n) (purge.delete_expired target cutoff d).1)
  unfolding migrate_all migrate_model
  target-runs cutoff target targets total d =
      elim (Result-cases (purge.delete_expired target cutoff d).0) [
        | inl (n, e) ↦ (n, rw e refl)
        | inr (x, e) ↦ (0, rw e refl)
      ]

  -- If the job is enabled and its DELETE on users succeeds, the job answers, and afterwards the users'
  -- deleted rows are those from before it that were deleted no earlier than the cutoff, whether or not
  -- the DELETE on sessions has failed.
  pub handle_delete_migration-purges :
      (config : MigrationConfig) (now n : ℕ) (id : String) (d : D)
      → config.enabled ≡ true
      → let cutoff = purge.days_before config.retention_days now in
        (purge.delete_expired "User" cutoff (purge.delete_expired "UserSession" cutoff d).1).0
          ≡ ok n
        → let (answer, d') = handle_delete_migration purge config now d in
          (is_answer answer ≡ true)
          × (laws.deleted d' "User" id ≡ unexpired cutoff (laws.deleted d "User" id))
  unfolding handle_delete_migration migrate_all
  handle_delete_migration-purges config now n id d on done =
      let cutoff = purge.days_before config.retention_days now in
      let d1 = (purge.delete_expired "UserSession" cutoff d).1 in
      let (n1, first) = target-runs cutoff "UserSession" ("User" ∷ []) 0 d in
      let (n2, second) = target-runs cutoff "User" [] (0 + n1) d1 in
      rw on (
        rw (first ∙ second) (
          refl,
          laws.removes d1 "User" cutoff n id done
              ∙ ap (unexpired cutoff) (laws.keeps d "UserSession" "User" cutoff id refl),
        ))
