-- ===== src/Backup/Moves.antt =====
-- Which files of a directory the nightly backup moves.
use nestjs_vibe_engine.Prelude.{
  ℕ, ◌+◌, String, ◌≡◌, refl, sym, ap, ◌∙◌, subst, Bool, true, false, not, ◌&&◌, List, [], ◌∷◌, ◌++◌,
  if◌then◌else◌, Bool-cases, inl, inr, any, length, length-append, ◌==◌, arith,
}
use mathlib.Core.List.{append-nil, append_assoc}
use nestjs_vibe_engine.Exec.{Exception, ok, err, pure, continue, ◌>>=◌}
use nestjs_vibe_engine.Backup.{
  FileStat, FileSystem, is_young, backup_directory, ensure_directory_exists, move_file, back_up,
  back_up_if_old, back_up_files,
}

abbrev pub Move : Type 0
Move = String × String

abbrev pub moved_from : String → List Move → Bool
moved_from path ms = any (λ m. m.0 == path) ms

-- A list of the one move that is made, or of none.
abbrev pub made_if : Bool → Move → List Move
made_if true m = m ∷ []
made_if false m = []

-- Documented behaviour of a file system that answers. `moves` are the renames so far. A path that has
-- not been moved away is what it was, and a rename of one either is made or throws and changes nothing.
pub record FileLaws {F : Type 0} (fs : FileSystem F) : Type 0 where
  pub moves : F → List Move
  pub stat_of : String → FileStat
  pub can_rename : String → Bool
  pub refusal : Exception
  pub stat :
      (d : F) (path : String)
      → moved_from path (moves d) ≡ false
      → fs.stat path d ≡ (ok (stat_of path), d)
  pub exists : (d : F) (path : String) → (b : Bool) × (fs.exists path d ≡ (ok b, d))
  pub make_dir :
      (d : F) (path : String) → (d' : F) × (fs.make_dir path d ≡ (ok tt, d')) × (moves d' ≡ moves d)
  pub rename :
      (d : F) (source target : String)
      → moved_from source (moves d) ≡ false
      → (d' : F) × (fs.rename source target d
          ≡ (if can_rename source then ok tt else err refusal, d'))
        × (moves d' ≡ moves d ++ made_if (can_rename source) (source, target))

module _ {F : Type 0} (fs : FileSystem F) (laws : FileLaws fs) where
  -- A regular file, thirty days old or older, whose rename is made.
  abbrev pub is_moved : ℕ → String → Bool
  is_moved now path =
      (laws.stat_of path).is_file && not (is_young now (laws.stat_of path)) && laws.can_rename path

  abbrev pub move_of : String → String → Move
  move_of dir file = (
    fs.join dir file,
    fs.join (backup_directory fs (laws.stat_of (fs.join dir file)).changed_at) file,
  )

  abbrev pub planned_one : ℕ → String → String → List Move
  planned_one now dir file = made_if (is_moved now (fs.join dir file)) (move_of dir file)

  -- The moves of the files of a directory, in the order of the listing.
  abbrev pub planned : ℕ → String → List String → List Move
  planned now dir [] = []
  planned now dir (file ∷ files) = planned_one now dir file ++ planned now dir files

  -- The listed files are distinct and none has been moved away.
  abbrev pub IsFresh : String → List String → List Move → Type 0
  IsFresh dir [] ms = Unit {0}
  IsFresh dir (file ∷ files) ms =
      (moved_from (fs.join dir file) ms ≡ false)
      × (any (λ other. fs.join dir file == fs.join dir other) files ≡ false)
      × IsFresh dir files ms

  ensure_lem :
      (d : F) (dir : String)
      → (d' : F) × (ensure_directory_exists fs dir d ≡ (ok tt, d')) × (laws.moves d' ≡ laws.moves d)
  unfolding ensure_directory_exists
  ensure_lem d dir =
      let (b, e) = laws.exists d dir in
      let (d', made, same) = laws.make_dir d dir in
      elim (Bool-cases b) [
        | inl t ↦ (d, rw e (rw t refl), refl)
        | inr f ↦ (d', rw e (rw f made), same)
      ]

  move_file_lem :
      (d : F) (source target : String)
      → moved_from source (laws.moves d) ≡ false
      → let made = made_if (laws.can_rename source) (source, target) in
        (d' : F) × (move_file fs source target d ≡ (ok (length made), d'))
        × (laws.moves d' ≡ laws.moves d ++ made)
  unfolding move_file
  move_file_lem d source target here =
      let (d', e, after) = laws.rename d source target here in
      elim (Bool-cases (laws.can_rename source)) [
        | inl c ↦ (d', rw e (rw c refl), after)
        | inr c ↦ (d', rw e (rw c refl), after)
      ]

  back_up_lem :
      (d : F) (dir file : String)
      → let path = fs.join dir file in
        moved_from path (laws.moves d) ≡ false
        → let made = made_if (laws.can_rename path) (move_of dir file) in
          (d' : F) × (back_up fs dir file (laws.stat_of path) d ≡ (ok (length made), d'))
          × (laws.moves d' ≡ laws.moves d ++ made)
  unfolding back_up
  back_up_lem d dir file here =
      let target = backup_directory fs (laws.stat_of (fs.join dir file)).changed_at in
      let (d1, ready, same) = ensure_lem d target in
      let (d2, moved, after) =
        move_file_lem d1 (fs.join dir file) (fs.join target file)
          (ap (moved_from (fs.join dir file)) same ∙ here) in
      (
        d2,
        ap (λ p. continue p.0 (λ _. move_file fs (fs.join dir file) (fs.join target file)) p.1)
              ready
            ∙ moved,
        after
            ∙ ap (λ ms. ms ++ made_if (laws.can_rename (fs.join dir file)) (move_of dir file)) same,
      )

  -- The step of the loop behind the look at the file.
  back_up_if_old_lem :
      (now : ℕ) (d : F) (dir file : String)
      → moved_from (fs.join dir file) (laws.moves d) ≡ false
      → (d' : F) × (back_up_if_old fs now dir file (laws.stat_of (fs.join dir file)) d
          ≡ (ok (length (planned_one now dir file)), d'))
        × (laws.moves d' ≡ laws.moves d ++ planned_one now dir file)
  unfolding back_up_if_old back_up
  back_up_if_old_lem now d dir file here =
      elim (Bool-cases (laws.stat_of (fs.join dir file)).is_file) [
        | inr f ↦ (d, rw f refl, rw f (sym (append-nil (laws.moves d))))
        | inl f ↦ elim (Bool-cases (is_young now (laws.stat_of (fs.join dir file)))) [
          | inl y ↦ (d, rw (f, y) refl, rw (f, y) (sym (append-nil (laws.moves d))))
          | inr y ↦
              let (d', moved, after) = back_up_lem d dir file here in
              (d', rw (f, y) moved, rw (f, y) after)
        ]
      ]

  still_here :
      (path : String) (m : Move) (made : Bool) (ms : List Move)
      → moved_from path ms ≡ false
      → (m.0 == path) ≡ false
      → moved_from path (ms ++ made_if made m) ≡ false
  still_here path m true [] h k = ground (arith, h, k)
  still_here path m false [] h k = refl
  still_here path m made (n ∷ ms) h k =
      let rest = still_here path m made ms (ground (arith, h)) k in ground (arith, h, rest)

  -- Moving one file leaves the others where they were.
  planned_one-IsFresh :
      (now : ℕ) (dir file : String) (files : List String) (ms : List Move)
      → any (λ other. fs.join dir file == fs.join dir other) files ≡ false
      → IsFresh dir files ms
      → IsFresh dir files (ms ++ planned_one now dir file)
  planned_one-IsFresh now dir file [] ms h fresh = tt
  planned_one-IsFresh now dir file (other ∷ files) ms h (here, distinct, rest) = (
    still_here (fs.join dir other) (move_of dir file) (is_moved now (fs.join dir file)) ms here
        (ground (arith, h)),
    distinct,
    planned_one-IsFresh now dir file files ms (ground (arith, h)) rest,
  )

  -- The loop over the files of a directory moves, in their order, exactly the regular files that are
  -- thirty days old or older and can be renamed, each to the directory of its month, and answers their
  -- number: the listed files being distinct and not yet moved away. One that cannot be renamed does not
  -- stop the loop.
  pub back_up_files-moves :
      (now : ℕ) (dir : String) (files : List String) (d : F)
      → IsFresh dir files (laws.moves d)
      → (d' : F) × (back_up_files fs now dir files d ≡ (ok (length (planned now dir files)), d'))
        × (laws.moves d' ≡ laws.moves d ++ planned now dir files)
  unfolding back_up_files
  back_up_files-moves now dir [] d fresh = (d, refl, sym (append-nil (laws.moves d)))
  back_up_files-moves now dir (file ∷ files) d (here, distinct, rest) =
      let (d1, moved, after) = back_up_if_old_lem now d dir file here in
      let fresh1 =
        subst (λ (ms : List Move). IsFresh dir files ms) (sym after)
          (planned_one-IsFresh now dir file files (laws.moves d) distinct rest) in
      let (d2, others, last) = back_up_files-moves now dir files d1 fresh1 in
      let one = planned_one now dir file in
      let more = planned now dir files in
      (
        d2,
        ap
              (λ p.
                continue p.0
                  (λ stat. back_up_if_old fs now dir file stat >>= λ moved.
                    back_up_files fs now dir files >>= λ rest. pure (moved + rest))
                  p.1)
              (laws.stat d (fs.join dir file) here)
            ∙ ap
                (λ p.
                  continue p.0
                    (λ moved. back_up_files fs now dir files >>= λ rest. pure (moved + rest)) p.1)
                moved
            ∙ ap (λ p. continue p.0 (λ rest. pure (length one + rest)) p.1) others
            ∙ ap (λ n. (ok n, d2)) (sym (length-append one more)),
        last ∙ ap (λ ms. ms ++ more) after ∙ append_assoc (laws.moves d) one more,
      )
