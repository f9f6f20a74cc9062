-- ===== src/Migrations/Again.antt =====
-- Runs on a database that has seen the files before.
use cloud_commander.Prelude.{
  suc, ◌-◌, ◌≡◌, refl, sym, ap, ◌∙◌, some, List, [], ◌∷◌, ◌++◌, arith, All,
}
use cloud_commander.Text.{Text}
use cloud_commander.Text.Laws.{text_eq_refl}
use mathlib.Core.Path.{subst}
use mathlib.Core.List.{append-nil}
use cloud_commander.Errors.{Result, ok, err}
use cloud_commander.Migrations.{
  SqlServer, Sha256, File, Migrated, Session, migration_checksum, find_checksum, apply_file,
  apply_files, apply_migrations, migration_files, rows_of,
}
use cloud_commander.Migrations.Order.{migration_files-Distinct}
use cloud_commander.Migrations.Progress.{
  Recorded, Round, skips, refuses, fails, applies, apply_file-Round, find_checksum-same,
  find_checksum-other, go_on, apply_files-go_on, Distinct, Progress, apply_files-Progress,
}

module _ {S : Type 0} ⦃server : SqlServer S⦄ ⦃sha : Sha256⦄ where
  -- A row stays as it is.
  Round-keeps :
      (f : File) (db db' : Migrated S) (r : Result (List Text)) (name c : Text)
      → Round f db r db'
      → find_checksum name db.rows ≡ some c
      → find_checksum name db'.rows ≡ some c
  Round-keeps f db _ _ name c (skips e) h = h
  Round-keeps f db _ _ name c (refuses d e n) h = h
  Round-keeps f db _ _ name c (fails x e) h = h
  Round-keeps f db _ _ name c (applies schema e ex k) h =
      find_checksum-other f.0 _ name db.rows (λ same. cc) ∙ h

  Round-Recorded :
      (f : File) (db db' : Migrated S) (names : List Text)
      → Round f db (ok names) db'
      → Recorded db'.rows f
  Round-Recorded f db _ _ (skips e) = e
  Round-Recorded f db _ _ (applies schema e ex k) = find_checksum-same f.0 _ db.rows

  -- One round more, whatever it is
  go_on-keeps :
      (files : List File) (applied : List Text) (r : Result (List Text)) (db : Migrated S)
      (name c : Text)
      → ((sofar : List Text) → find_checksum name (apply_files files sofar db).1.rows ≡ some c)
      → find_checksum name db.rows ≡ some c
      → find_checksum name (go_on files applied r db).1.rows ≡ some c
  go_on-keeps files applied (err x) db name c rest h = h
  go_on-keeps files applied (ok names) db name c rest h = rest (applied ++ names)

  apply_files-keeps :
      (files : List File) (applied : List Text) (db : Migrated S) (name c : Text)
      → find_checksum name db.rows ≡ some c
      → find_checksum name (apply_files files applied db).1.rows ≡ some c
  unfolding apply_files
  apply_files-keeps [] applied db name c h = h
  apply_files-keeps (f ∷ files) applied db name c h =
      let kept = Round-keeps f db _ _ name c (apply_file-Round f db) h in
      rw (apply_files-go_on f files applied db) (
        go_on-keeps files applied _ _ name c (λ sofar. apply_files-keeps files sofar _ name c kept)
          kept)

  go_on-Recorded :
      (f : File) (files : List File) (applied names : List Text) (db : Migrated S)
      (r : Result (List Text)) (db' : Migrated S)
      → Round f db r db'
      → ((sofar : List Text) (d : Migrated S)
          → (apply_files files sofar d).0 ≡ ok names
          → All (Recorded (apply_files files sofar d).1.rows) files)
      → (go_on files applied r db').0 ≡ ok names
      → All (Recorded (go_on files applied r db').1.rows) (f ∷ files)
  go_on-Recorded f files applied names db (err x) db' round rest h = cc
  go_on-Recorded f files applied names db (ok new) db' round rest h = (
    apply_files-keeps files (applied ++ new) db' f.0 _ (Round-Recorded f db db' new round),
    rest (applied ++ new) db' h,
  )

  -- A loop that returns leaves a row for every file, with its checksum.
  apply_files-Recorded :
      (files : List File) (applied names : List Text) (db : Migrated S)
      → (apply_files files applied db).0 ≡ ok names
      → All (Recorded (apply_files files applied db).1.rows) files
  unfolding apply_files
  apply_files-Recorded [] applied names db h = tt
  apply_files-Recorded (f ∷ files) applied names db h =
      let step = apply_files-go_on f files applied db in
      let all =
        go_on-Recorded f files applied names db _ _ (apply_file-Round f db)
          (λ sofar d. apply_files-Recorded files sofar names d)
          (ap (λ out. out.0) (sym step) ∙ h) in
      subst (λ out. All (Recorded out.1.rows) (f ∷ files)) (sym step) all

  apply_file-over :
      (f : File) (db : Migrated S) → Recorded db.rows f → apply_file f db ≡ (ok [], db)
  unfolding apply_file
  apply_file-over f db e = rw (e, text_eq_refl (migration_checksum f.1), apply_file) refl

  -- Where every file has its row, the loop passes over all.
  apply_files-over :
      (files : List File) (applied : List Text) (db : Migrated S)
      → All (Recorded db.rows) files
      → apply_files files applied db ≡ (ok applied, db)
  unfolding apply_files
  apply_files-over [] applied db a = refl
  apply_files-over (f ∷ files) applied db a =
      apply_files-go_on f files applied db
      ∙ ap (λ out. go_on files applied out.0 out.1) (apply_file-over f db a.0)
      ∙ rw (append-nil applied) (apply_files-over files applied db a.1)

  -- The tables as the loop finds them
  abbrev pub tables : Session S → Migrated S
  tables s = record { schema = s.schema; rows = rows_of s.schema_migrations }

  -- The session with the tables that a loop has left
  abbrev pub stored : Session S → Migrated S → Session S
  stored s db = record { schema = db.schema; schema_migrations = some db.rows; locks = s.locks }

  -- The outcome of the loop, which the whole run hands on
  abbrev looped : List File → Session S → Result (List Text) × Migrated S
  looped dir s = apply_files (migration_files dir) [] (tables s)

  apply_migrations-stored :
      (dir : List File) (s : Session S)
      → apply_migrations dir s ≡ ((looped dir s).0, stored s (looped dir s).1)
  unfolding apply_migrations
  apply_migrations-stored dir s =
      let same : suc s.locks - 1 ≡ s.locks = omega arith in
      ap (λ n. ((looped dir s).0, record (stored s (looped dir s).1) { locks = n })) same

  -- After a run of the migrations that returns, a second run on the same directory applies nothing
  -- and leaves the session as it is.
  pub apply_migrations_again :
      (dir : List File) (names : List Text) (s s' : Session S)
      → apply_migrations dir s ≡ (ok names, s')
      → apply_migrations dir s' ≡ (ok [], s')
  unfolding apply_migrations
  apply_migrations_again dir names s s' h =
      let files = migration_files dir in
      let out = looped dir s in
      let run = sym (apply_migrations-stored dir s) ∙ h in
      let same : stored s out.1 ≡ s' = ap (λ o. o.1) run in
      let over =
        apply_files-over files [] out.1
          (apply_files-Recorded files [] names (tables s) (ap (λ o. o.0) run)) in
      ap (apply_migrations dir) (sym same)
      ∙ apply_migrations-stored dir (stored s out.1)
      ∙ ap (λ o. (o.0, stored s o.1)) over
      ∙ ap (λ d. (ok [], d)) same

  abbrev pub Outcome : List File → Session S → Result (List Text) × Session S → Type 0
  Outcome dir s o =
      (db : Migrated S) × Progress (migration_files dir) (tables s) [] o.0 db × (o.1 ≡ stored s db)

  -- However a run of the migrations ends on a directory without two files of one name, the files
  -- that had no row split into those that it executed, committed and recorded, in the order of the
  -- names, and those that it did not; where it returns, none is left and it returns the names of
  -- those that it executed, and where it does not it raises; it gives its lock back.
  pub apply_migrations_progress :
      (dir : List File) (s : Session S) → Distinct dir → Outcome dir s (apply_migrations dir s)
  apply_migrations_progress dir s d =
      subst (λ o. Outcome dir s o) (sym (apply_migrations-stored dir s))
        (
          (looped dir s).1,
          apply_files-Progress (migration_files dir) [] (tables s) (migration_files-Distinct dir d),
          refl,
        )
