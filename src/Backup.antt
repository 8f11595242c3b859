-- ===== src/Backup.antt =====
-- src/core/logger/log-backup.service.ts over the file system, the clock and the calendar, which are
-- parameters.
-- Log output is left out.
pub mod Moves
mod Tests
use nestjs_vibe_engine.Prelude.{
  ℕ, ◌+◌, ◌-◌, ◌*◌, String, Bool, not, List, [], ◌∷◌, ltb, if◌then◌else◌,
}
use nestjs_vibe_engine.Js.Text.{◌⧺◌}
use nestjs_vibe_engine.Exec.{Exec, pure, try_catch, ◌>>=◌, ◌>>◌}

-- What is read of fs.statSync: the time of the last change is in milliseconds.
pub record FileStat : Type 0 where
  pub is_file : Bool
  pub changed_at : ℕ

-- `fs`, `path` and `Date.now` on a state `F`; `year_month` is the year and the month of a time, as 2025-01.
pub record FileSystem (F : Type 0) : Type 0 where
  pub resolve : String → String
  pub join : String → String → String
  pub exists : String → Exec F Bool
  pub read_dir : String → Exec F (List String)
  pub stat : String → Exec F FileStat
  pub make_dir : String → Exec F (Unit {0})
  pub rename : String → String → Exec F (Unit {0})
  pub now : Exec F ℕ
  pub year_month : ℕ → String

abbrev pub log_directories : List String
log_directories = "logs/api" ∷ "logs/socket" ∷ "logs/error" ∷ []

abbrev pub one_month_ms : ℕ
one_month_ms = 30 * 24 * 60 * 60 * 1000

-- `now - mtimeMs < ONE_MONTH_MS`, where a time ahead of now counts as young, too.
abbrev pub is_young : ℕ → FileStat → Bool
is_young now stat = ltb (now - stat.changed_at) one_month_ms

module _ {F : Type 0} (fs : FileSystem F) where
  unfoldable pub backup_directory : ℕ → String
  backup_directory time = fs.resolve ("backup/" ⧺ fs.year_month time)

  unfoldable pub ensure_directory_exists : String → Exec F (Unit {0})
  ensure_directory_exists dir =
      fs.exists dir >>= λ there. if there then pure tt else fs.make_dir dir

  -- The try around the rename: how many files were moved.
  unfoldable pub move_file : String → String → Exec F ℕ
  move_file source target = try_catch (fs.rename source target >> pure 1) (λ e. pure 0)

  -- The body of the loop behind the two tests.
  unfoldable pub back_up : String → String → FileStat → Exec F ℕ
  back_up dir file stat =
      ensure_directory_exists (backup_directory stat.changed_at)
      >> move_file (fs.join dir file) (fs.join (backup_directory stat.changed_at) file)

  unfoldable pub back_up_if_old : ℕ → String → String → FileStat → Exec F ℕ
  back_up_if_old now dir file stat =
      if not stat.is_file
      then pure 0
      else if is_young now stat
      then pure 0
      else back_up dir file stat

  unfoldable pub back_up_files : ℕ → String → List String → Exec F ℕ
  back_up_files now dir [] = pure 0
  back_up_files now dir (file ∷ files) = do
    stat ← fs.stat (fs.join dir file)
    moved ← back_up_if_old now dir file stat
    rest ← back_up_files now dir files
    pure (moved + rest)

  unfoldable pub back_up_directory : String → Exec F ℕ
  back_up_directory dir = do now ← fs.now; files ← fs.read_dir dir; back_up_files now dir files

  unfoldable pub backup_old_logs : String → Exec F ℕ
  backup_old_logs log_dir = fs.exists (fs.resolve log_dir) >>= λ there.
      if there then back_up_directory (fs.resolve log_dir) else pure 0

  unfoldable pub back_up_all : List String → Exec F ℕ
  back_up_all [] = pure 0
  back_up_all (dir ∷ dirs) = do
    moved ← backup_old_logs dir
    rest ← back_up_all dirs
    pure (moved + rest)

  unfoldable pub handle_log_backup : Exec F ℕ
  handle_log_backup = back_up_all log_directories
