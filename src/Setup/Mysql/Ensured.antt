-- ===== src/Setup/Mysql/Ensured.antt =====
-- What `ensureDatabase` in src/setup/setup.server.ts reports.
use nestjs_vibe_engine.Prelude.{
  String, ◌≡◌, ap, Bool, true, false, ◌||◌, none, some, List, [], ◌∷◌, is_some, length, ltb, inl,
  inr, ◌⊎◌,
}
use nestjs_vibe_engine.Exec.{Exec, Exception, Result, ok, err, pure, recover, ◌>>=◌, >>=-eq-ok}
use nestjs_vibe_engine.Js.Text.{◌⧺◌}
use nestjs_vibe_engine.Setup.Mysql.{
  DbConnectOptions, EnsureResult, Mysql, finally_close, ensure_database, create_if_missing,
  message_of,
}

-- The database was there or was created, or there is a text of an error.
abbrev pub Reports : EnsureResult → Type 0
Reports r = ((r.created || r.existed) ≡ true) ⊎ (is_some r.error ≡ true)

abbrev failed : Exception → EnsureResult
failed e = record { created = false; existed = false; error = some (message_of e) }

recovered :
    {S : Type 0} (answer : Result EnsureResult) (s : S) (r : EnsureResult)
    → ((a : EnsureResult) → answer ≡ ok a → Reports a)
    → (recover answer (λ e. pure (failed e)) s).0 ≡ ok r
    → Reports r
recovered (ok a) s r reports h = reports r h
recovered (err e) s r reports h =
    let is_error : r ≡ failed e = cc in inr (ap (λ x. is_some x.error) is_error)

module _ {E C : Type 0} (mysql : Mysql E C) where
  create_if_missing-Reports :
      (conn : C) (db_name : String) (existed : Bool) (e : E) (r : EnsureResult)
      → (create_if_missing mysql conn db_name existed e).0 ≡ ok r
      → Reports r
  create_if_missing-Reports conn db_name true e r h =
      let is_there : r ≡ record { created = false; existed = true; error = none } = cc in
      inl (ap (λ x. x.created || x.existed) is_there)
  create_if_missing-Reports conn db_name false e r h =
      let (_, _, _, done) =
        >>=-eq-ok
          (mysql.query conn
            ("CREATE DATABASE `" ⧺ (db_name ⧺ "` CHARACTER SET utf8mb4 COLLATE utf8mb4_unicode_ci"))
            [])
          (λ rows. pure (record { created = true; existed = false; error = none })) e r h in
      let is_created : r ≡ record { created = true; existed = false; error = none } = cc in
      inl (ap (λ x. x.created || x.existed) is_created)

  -- An answer without an error stands for a database that was there or was created.
  pub ensure_database-Reports :
      (opts : DbConnectOptions) (db_name : String) (e : E) (r : EnsureResult)
      → (ensure_database mysql opts db_name e).0 ≡ ok r
      → Reports r
  unfolding ensure_database
  ensure_database-Reports opts db_name e r h =
      let look : C → Exec E (List String) = λ conn.
        mysql.query conn "SELECT SCHEMA_NAME FROM INFORMATION_SCHEMA.SCHEMATA WHERE SCHEMA_NAME = ?"
          (db_name ∷ []) in
      let find : C → List String → Exec E EnsureResult =
        λ conn rows. create_if_missing mysql conn db_name (ltb 0 (length rows)) in
      let body : C → Exec E EnsureResult =
        λ conn. finally_close mysql conn (look conn >>= find conn) in
      recovered ((mysql.create_connection opts >>= body) e).0
        ((mysql.create_connection opts >>= body) e).1 r
        (λ a g.
          let (conn, _, _, closed) = >>=-eq-ok (mysql.create_connection opts) body e a g in
          let (rows, _, _, made) =
            >>=-eq-ok (look conn) (find conn) (mysql.create_connection opts e).1 a closed in
          create_if_missing-Reports conn db_name (ltb 0 (length rows)) _ a made)
        h
