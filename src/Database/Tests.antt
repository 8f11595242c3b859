-- ===== src/Database/Tests.antt =====
-- Tests of soft deletion: a query that deletes, and the nightly job on tables in memory.
use nestjs_vibe_engine.Prelude.{
  ℕ, String, ◌≡◌, refl, true, false, Option, none, some, ◌==◌, if◌then◌else◌, eq_refl,
}
use nestjs_vibe_engine.Exec.{ok}
use nestjs_vibe_engine.Database.SoftDelete.{
  Params, given, is_soft_deleted, soft_delete_params, soft_delete_params-safe,
}
use nestjs_vibe_engine.Database.Migration.{
  Purge, PurgeLaws, MigrationConfig, unexpired, handle_delete_migration,
  handle_delete_migration-purges, is_answer,
}

abbrev deletion : Params
deletion = record {
  model = some "User";
  action = "delete";
  where_deleted_at = none;
  query_data = given none;
}

on_users : is_soft_deleted deletion.model ≡ true
unfolding is_soft_deleted
on_users = refl

soft_delete_params-safe_example : ((soft_delete_params 7 deletion).action == "delete") ≡ false
soft_delete_params-safe_example = (soft_delete_params-safe 7 deletion on_users).0

-- For each table and id the time of deletion.
abbrev Deleted : Type 0
Deleted = String → String → Option ℕ

abbrev purge : Purge Deleted
purge = record {
  delete_expired =
      λ t cutoff d. (ok 1, λ u id. if t == u then unexpired cutoff (d u id) else d u id);
  days_before = λ days now. 100;
}

purge_laws : PurgeLaws purge
purge_laws = record {
  deleted = λ d t id. d t id;
  removes = λ d t cutoff n id h. rw (eq_refl t) refl;
  keeps = λ d t u cutoff id h. rw h refl;
}

abbrev all_at_50 : Deleted
all_at_50 u id = some 50

abbrev config : MigrationConfig
config = record { enabled = true; retention_days = 30 }

handle_delete_migration-purges_example :
    is_answer (handle_delete_migration purge config 1000 all_at_50).0 ≡ true
handle_delete_migration-purges_example =
    (handle_delete_migration-purges purge purge_laws config 1000 1 "ann" all_at_50 refl refl).0
