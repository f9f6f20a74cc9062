-- ===== src/Migrations.antt =====
-- migrations/run.py. What PostgreSQL does with the text of a migration, and the digest of one, are
-- interfaces. A directory is the list of its files, each a name with its text.
pub mod Progress
pub mod Order
pub mod Again
use cloud_commander.Prelude.{
  ℕ, suc, ◌-◌, Bool, true, false, not, ◌&&◌, ◌||◌, Option, none, some, List, [], ◌∷◌, ◌++◌, ltb,
  leb, ◌==◌, if◌then◌else◌, length,
}
use cloud_commander.Environment.{Env, or_else}
use cloud_commander.Text.{Text, codes, text_eq}
use cloud_commander.Errors.{Result, ok, err, plain, unique_violation, ◌>>=◌}

-- The tables that the migrations are for are the state `S`: no migration touches
-- `schema_migrations`, so that table stands beside them.
pub record SqlServer (S : Type 0) : Type 0 where
  pub execute : Text → S → Result S  -- conn.execute(sql)
  pub commit : S → Result (Unit {0})  -- the deferred constraints, tested at the commit

pub record Sha256 : Type 0 where
  pub hexdigest : Text → Text  -- hashlib.sha256(sql.encode("utf-8")).hexdigest()

abbrev pub File : Type 0
File = Text × Text

-- A row of schema_migrations: filename and checksum
abbrev pub MigrationRow : Type 0
MigrationRow = Text × Text

-- The tables, with the rows of `schema_migrations`, the newest first
pub record Migrated (S : Type 0) : Type 0 where
  pub schema : S
  pub rows : List MigrationRow

-- What a connection sees: `schema_migrations` may be missing, and the session holds its advisory
-- lock as often as it has taken it.
pub record Session (S : Type 0) : Type 0 where
  pub schema : S
  pub schema_migrations : Option (List MigrationRow)
  pub locks : ℕ

unfoldable pub migration_checksum : ⦃sha : Sha256⦄ → Text → Text
migration_checksum ⦃sha = sha⦄ sql = sha.hexdigest sql

-- `[0-9]`
abbrev pub is_digit : ℕ → Bool
is_digit c = leb b'0' c && leb c b'9'

-- `s.endswith(p)`
unfoldable pub ends_with : Text → Text → Bool
unfolding text_eq
ends_with p [] = text_eq [] p
ends_with p (c ∷ s) = text_eq (c ∷ s) p || ends_with p s

-- The pattern `[0-9][0-9][0-9]_*.sql`
unfoldable pub is_migration : Text → Bool
unfolding ends_with
is_migration (a ∷ b ∷ c ∷ d ∷ name) =
    is_digit a && is_digit b && is_digit c && d == b'_' && ends_with (codes ".sql") name
is_migration _ = false

-- `s <= t` for strings: by code points
unfoldable pub text_le : Text → Text → Bool
text_le [] t = true
text_le (c ∷ s) [] = false
text_le (c ∷ s) (d ∷ t) = ltb c d || (c == d && text_le s t)

-- `migrations_dir.glob(…)`
unfoldable pub glob : List File → List File
unfolding is_migration
glob [] = []
glob (f ∷ dir) = let rest = glob dir in if is_migration f.0 then f ∷ rest else rest

-- `sorted(…)`: the paths of one directory are ordered as their names.
unfoldable pub insert_sorted : File → List File → List File
unfolding text_le
insert_sorted f [] = f ∷ []
insert_sorted f (g ∷ fs) =
    let rest = insert_sorted f fs in if text_le f.0 g.0 then f ∷ g ∷ fs else g ∷ rest

unfoldable pub sorted : List File → List File
unfolding insert_sorted
sorted [] = []
sorted (f ∷ fs) = insert_sorted f (sorted fs)

unfoldable pub migration_files : List File → List File
unfolding glob sorted
migration_files dir = sorted (glob dir)

-- SELECT checksum FROM schema_migrations WHERE filename = …
unfoldable pub find_checksum : Text → List MigrationRow → Option Text
find_checksum filename [] = none
find_checksum filename ((name, checksum) ∷ rows) =
    let rest = find_checksum filename rows in if text_eq name filename then some checksum else rest

abbrev pub changed_message : Text → Text
changed_message name =
    codes "Migration " ++ (name ++ codes " was already applied with a different checksum.")

module _ {S : Type 0} where
  -- INSERT INTO schema_migrations, whose key is the name
  unfoldable pub insert_migration : Text → Text → Migrated S → Result (Migrated S)
  unfolding find_checksum
  insert_migration filename checksum db = elim (find_checksum filename db.rows) [
    | some c ↦ err (unique_violation (codes "schema_migrations_pkey"))
    | none ↦ ok (record db { rows = (filename, checksum) ∷ db.rows })
  ]

module _ {S : Type 0} ⦃server : SqlServer S⦄ ⦃sha : Sha256⦄ where
  -- The body of `async with conn.transaction()`, and its commit
  unfoldable pub apply_new : File → Migrated S → Result (Migrated S)
  unfolding insert_migration migration_checksum
  apply_new (name, sql) db = do
    schema ← server.execute sql db.schema
    db' ← insert_migration name (migration_checksum sql) (record db { schema = schema })
    _ ← server.commit db'.schema
    ok db'

  -- One round of the loop: the names that it appends to `applied`. A transaction that raises is
  -- undone.
  unfoldable pub apply_file : File → Migrated S → Result (List Text) × Migrated S
  unfolding apply_new migration_checksum find_checksum
  apply_file (name, sql) db = elim (find_checksum name db.rows) [
    | some existing ↦
        if not (text_eq existing (migration_checksum sql))
        then (err (plain (changed_message name)), db)
        else (ok [], db)
    | none ↦ elim (apply_new (name, sql) db) [
      | err x ↦ (err x, db)
      | ok db' ↦ (ok (name ∷ []), db')
    ]
  ]

  unfoldable pub apply_files : List File → List Text → Migrated S → Result (List Text) × Migrated S
  unfolding apply_file
  apply_files [] applied db = (ok applied, db)
  apply_files (f ∷ files) applied db =
      let (result, db') = apply_file f db in
      elim result [ err x ↦ (err x, db') | ok names ↦ apply_files files (applied ++ names) db' ]

-- CREATE TABLE IF NOT EXISTS schema_migrations
abbrev pub rows_of : Option (List MigrationRow) → List MigrationRow
rows_of none = []
rows_of (some rows) = rows

module _ {S : Type 0} where
  -- SELECT pg_advisory_lock
  abbrev pub advisory_lock : Session S → Session S
  advisory_lock s = record s { locks = suc s.locks }

  -- SELECT pg_advisory_unlock
  abbrev pub advisory_unlock : Session S → Session S
  advisory_unlock s = record s { locks = s.locks - 1 }

  abbrev pub with_tables : Session S → Migrated S → Session S
  with_tables s db = record s { schema = db.schema; schema_migrations = some db.rows }

module _ {S : Type 0} ⦃server : SqlServer S⦄ ⦃sha : Sha256⦄ where
  -- `finally` gives the lock back whatever the loop did.
  unfoldable pub apply_migrations : List File → Session S → Result (List Text) × Session S
  unfolding apply_files migration_files
  apply_migrations dir s =
      let locked = advisory_lock s in
      let tables : Migrated S = record {
        schema = locked.schema;
        rows = rows_of locked.schema_migrations;
      } in
      let (result, db) = apply_files (migration_files dir) [] tables in
      (result, advisory_unlock (with_tables locked db))

abbrev pub missing_dsn : Text
missing_dsn = codes "Missing TEST_DATABASE_URL or DATABASE_URL environment variable for migrations."

module _ {S : Type 0} ⦃server : SqlServer S⦄ ⦃sha : Sha256⦄ where
  -- The connection
  abbrev pub run_with :
      List File → Option Text → (Text → Result (Session S)) → Result ℕ × Option (Session S)
  run_with dir none connect = (err (plain missing_dsn), none)
  run_with dir (some []) connect = (err (plain missing_dsn), none)
  run_with dir (some (c ∷ dsn)) connect = elim (connect (c ∷ dsn)) [
    | err x ↦ (err x, none)
    | ok s ↦
        let (result, s') = apply_migrations dir s in
        (result >>= λ applied. ok (length applied), some s')
  ]

  -- The number that the last line prints, and what the session leaves in the database when it has
  -- been opened and closed
  unfoldable pub run : List File → Env → (Text → Result (Session S)) → Result ℕ × Option (Session S)
  unfolding apply_migrations
  run dir env connect =
      run_with dir (or_else (env (codes "TEST_DATABASE_URL")) (env (codes "DATABASE_URL"))) connect
