-- ===== src/Backup/Tests.antt =====
-- The nightly backup over a file system in memory, which remembers the renames.
use nestjs_vibe_engine.Prelude.{
  String, ◌≡◌, refl, Bool, List, [], ◌∷◌, ◌++◌, ◌==◌, if◌then◌else◌, length, Bool-cases, inl, inr,
}
use mathlib.Core.List.{append-nil}
use nestjs_vibe_engine.Prelude.{sym, not}
use nestjs_vibe_engine.Js.Text.{◌⧺◌}
use nestjs_vibe_engine.Exec.{Exec, ok, err, failure}
use nestjs_vibe_engine.Backup.{FileStat, FileSystem, back_up_files, backup_directory}
use nestjs_vibe_engine.Backup.Moves
use nestjs_vibe_engine.Backup.Moves.{Move, FileLaws, planned, back_up_files-moves}

-- One old file, one new one, a directory, and an old file that cannot be renamed.
abbrev stat_of : String → FileStat
stat_of path = record {
  is_file = not (path == "/logs/old");
  changed_at = if path == "/logs/new.log" then 9000000000 else 0;
}

abbrev can_rename : String → Bool
can_rename path = not (path == "/logs/kept.log")

abbrev rename : String → String → Exec (List Move) (Unit {0})
rename source target d =
    if can_rename source then (ok tt, d ++ ((source, target) ∷ [])) else (err (failure "EPERM"), d)

abbrev files : FileSystem (List Move)
files = record {
  resolve = λ path. "/" ⧺ path;
  join = λ a b. a ⧺ ("/" ⧺ b);
  exists = λ path d. (ok (path == "/logs"), d);
  read_dir = λ path d. (ok ("a.log" ∷ "new.log" ∷ "old" ∷ "kept.log" ∷ []), d);
  stat = λ path d. (ok (stat_of path), d);
  make_dir = λ path d. (ok tt, d);
  rename = rename;
  now = λ d. (ok 9000000001, d);
  year_month = λ time. "1970-01";
}

renamed :
    (d : List Move) (source target : String)
    → (d' : List Move) × (rename source target d
        ≡ (if can_rename source then ok tt else err (failure "EPERM"), d'))
      × (d' ≡ d ++ Moves.made_if (can_rename source) (source, target))
renamed d source target = elim (Bool-cases (can_rename source)) [
  | inl c ↦ (d ++ ((source, target) ∷ []), rw c refl, rw c refl)
  | inr c ↦ (d, rw c refl, rw c (sym (append-nil d)))
]

abbrev file_laws : FileLaws files
file_laws = record {
  moves = λ d. d;
  stat_of = stat_of;
  can_rename = can_rename;
  refusal = failure "EPERM";
  stat = λ d path h. refl;
  exists = λ d path. (path == "/logs", refl);
  make_dir = λ d path. (d, refl, refl);
  rename = λ d source target h. renamed d source target;
}

abbrev listing : List String
listing = "a.log" ∷ "new.log" ∷ "old" ∷ "kept.log" ∷ []

one_move :
    planned files file_laws 9000000001 "/logs" listing
    ≡ ("/logs/a.log", "/backup/1970-01/a.log") ∷ []
unfolding backup_directory
one_move = refl

back_up_files-moves_example :
    (d' : List Move) × (back_up_files files 9000000001 "/logs" listing []
      ≡ (ok (length (planned files file_laws 9000000001 "/logs" listing)), d'))
    × (d' ≡ [] ++ planned files file_laws 9000000001 "/logs" listing)
back_up_files-moves_example =
    back_up_files-moves files file_laws 9000000001 "/logs" listing []
      (refl, refl, (refl, refl, (refl, refl, (refl, refl, tt))))
