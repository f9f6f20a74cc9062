-- ===== src/Tests/Migrations.antt =====
-- A directory with two migrations, on a database that only counts what was executed.
use cloud_commander.Prelude.{ℕ, suc, ◌≡◌, refl, none, some, List, [], ◌∷◌}
use cloud_commander.Text.{Text, codes, text_eq}
use cloud_commander.Text.Laws.{text_eq-false}
use cloud_commander.Errors.{ok, err, plain}
use cloud_commander.Migrations.{
  SqlServer, Sha256, File, Session, migration_checksum, find_checksum, is_migration, ends_with,
  glob, insert_sorted, sorted, text_le, migration_files, apply_file, apply_new, insert_migration,
  apply_files, apply_migrations,
}
use cloud_commander.Migrations.Progress.{Distinct}
use cloud_commander.Migrations.Again.{Outcome, apply_migrations_again, apply_migrations_progress}

-- A statement adds a table; the empty one is an error.
instance abbrev counting : SqlServer ℕ
counting = record {
  execute =
      λ sql tables. elim sql [ [] ↦ err (plain (codes "syntax error")) | c ∷ s ↦ ok (suc tables) ];
  commit = λ tables. ok tt;
}

instance abbrev toy_sha : Sha256
toy_sha = record { hexdigest = λ sql. sql }

abbrev first_file : File
first_file = (codes "001_a.sql", codes "CREATE a")

abbrev second_file : File
second_file = (codes "002_b.sql", codes "CREATE b")

abbrev directory : List File
directory = second_file ∷ (codes "run.py", []) ∷ first_file ∷ []

directory-Distinct : Distinct directory
unfolding text_eq
directory-Distinct = (
  ((text_eq-false _ _ refl), ((text_eq-false _ _ refl), tt)),
  (((text_eq-false _ _ refl), tt), (tt, tt)),
)

abbrev fresh : Session ℕ
fresh = record { schema = 0; schema_migrations = none; locks = 0 }

abbrev migrated : Session ℕ
migrated = record {
  schema = 2;
  schema_migrations = some (second_file ∷ first_file ∷ []);
  locks = 0;
}

abbrev both_names : List Text
both_names = codes "001_a.sql" ∷ codes "002_b.sql" ∷ []

migrates : apply_migrations directory fresh ≡ (ok both_names, migrated)
unfolding apply_migrations migration_files sorted insert_sorted text_le glob is_migration ends_with
    text_eq apply_files apply_file apply_new insert_migration migration_checksum find_checksum
migrates = refl

apply_migrations_again_example : apply_migrations directory migrated ≡ (ok [], migrated)
apply_migrations_again_example = apply_migrations_again directory both_names fresh migrated migrates

apply_migrations_progress_example : Outcome directory fresh (apply_migrations directory fresh)
apply_migrations_progress_example = apply_migrations_progress directory fresh directory-Distinct
