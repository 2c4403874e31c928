-- ===== src/Storage/Sqlite/Opening/Again.antt =====
-- That the migration of internal/storage/sqlite/sqlite.go may run at each start.
use gi_con_mon.Common.{
  List, ◌≡◌, none, All, true, Bool, str_eq, refl, Option-cases, [], ◌||◌, inl, inr, ◌∷◌, arith,
  subst, Option, sym,
}
use Prim.Native.String.{slice, String, ◌∷◌}
use gi_con_mon.Storage.Sqlite.Opening.{Driver, run_statements, statements, migrate, joined}

-- The statement makes a table or an index unless there is one of that name.
abbrev pub is_guarded : String → Bool
is_guarded stmt =
    str_eq (slice stmt 0 27) "CREATE TABLE IF NOT EXISTS "
    || str_eq (slice stmt 0 27) "CREATE INDEX IF NOT EXISTS "

-- What SQLite documents of such a statement: where it succeeds, there is what it names; such statements
-- remove nothing; and where there is what it names, it does nothing, successfully. `has` is whether a
-- database has what a statement names.
pub record IsDriver (D : Driver) : Type 0 where
  pub has : String → D.Db → Bool
  pub has-exec :
      (stmt : String) (db : D.Db)
      → is_guarded stmt ≡ true
      → (D.exec stmt db).1 ≡ none
      → has stmt (D.exec stmt db).0 ≡ true
  pub has-exec_other :
      (stmt other : String) (db : D.Db)
      → is_guarded other ≡ true
      → has stmt db ≡ true
      → has stmt (D.exec other db).0 ≡ true
  pub exec-has :
      (stmt : String) (db : D.Db)
      → is_guarded stmt ≡ true
      → has stmt db ≡ true
      → D.exec stmt db ≡ (db, none)

module _ (D : Driver) (driver : IsDriver D) where
  abbrev AllGuarded : List String → Type 0
  AllGuarded stmts = All (λ stmt. is_guarded stmt ≡ true) stmts

  has-run_statements :
      (stmt : String) (stmts : List String) (db : D.Db)
      → AllGuarded stmts
      → driver.has stmt db ≡ true
      → driver.has stmt (run_statements D stmts db).0 ≡ true
  unfolding run_statements
  has-run_statements stmt [] db guarded there = there
  has-run_statements stmt (next ∷ stmts) db guarded there =
      let kept = driver.has-exec_other stmt next db guarded.0 there in
      elim (Option-cases (D.exec next db).1) [
        | inl fine ↦
            rw (fine, run_statements)
              (has-run_statements stmt stmts (D.exec next db).0 guarded.1 kept)
        | inr (text, failed) ↦ rw (failed, run_statements) kept
      ]

  -- Where all of them succeed, the first does.
  ran_first :
      (stmt : String) (stmts : List String) (db : D.Db)
      → (run_statements D (stmt ∷ stmts) db).1 ≡ none
      → ((D.exec stmt db).1 ≡ none)
        × ((run_statements D stmts (D.exec stmt db).0).1 ≡ none)
        × (run_statements D (stmt ∷ stmts) db ≡ run_statements D stmts (D.exec stmt db).0)
  unfolding run_statements
  ran_first stmt stmts db ran = ground arith

  -- Behind statements that all succeed, each finds what it names.
  All-run_statements :
      (stmts : List String) (db : D.Db)
      → AllGuarded stmts
      → (run_statements D stmts db).1 ≡ none
      → All (λ stmt. driver.has stmt (run_statements D stmts db).0 ≡ true) stmts
  unfolding run_statements
  All-run_statements [] db guarded ran = tt
  All-run_statements (stmt ∷ stmts) db guarded ran =
      let (fine, rest, same) = ran_first stmt stmts db ran in
      let db' = (D.exec stmt db).0 in
      subst (λ (out : D.Db × Option String). All (λ x. driver.has x out.0 ≡ true) (stmt ∷ stmts))
        (sym same)
        (
          has-run_statements stmt stmts db' guarded.1 (driver.has-exec stmt db guarded.0 fine),
          All-run_statements stmts db' guarded.1 rest,
        )

  run_statements-has :
      (stmts : List String) (db : D.Db)
      → AllGuarded stmts
      → All (λ stmt. driver.has stmt db ≡ true) stmts
      → run_statements D stmts db ≡ (db, none)
  unfolding run_statements
  run_statements-has [] db guarded there = refl
  run_statements-has (stmt ∷ stmts) db guarded there =
      rw
        (
          driver.exec-has stmt db guarded.0 there.0,
          run_statements,
          driver.exec-has stmt db guarded.0 there.0,
        )
        (run_statements-has stmts db guarded.1 there.1)

  guarded : AllGuarded statements
  unfolding statements joined
  guarded = (refl, (refl, (refl, (refl, (refl, (refl, tt))))))

  -- A database whose migration succeeded is migrated again without an error and without a change: a
  -- restart of the server finds the tables with what they hold.
  pub migrate-migrate :
      (db : D.Db) → (migrate D db).1 ≡ none → migrate D (migrate D db).0 ≡ ((migrate D db).0, none)
  unfolding migrate
  migrate-migrate db ran =
      run_statements-has statements (run_statements D statements db).0 guarded
        (All-run_statements statements db guarded ran)
