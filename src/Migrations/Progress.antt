-- ===== src/Migrations/Progress.antt =====
-- What the loop over the migration files has done when it ends, however it ends.
use cloud_commander.Prelude.{
  ◌≡◌, refl, sym, ap, ◌∙◌, ◌≢◌, ◌⊎◌, inl, inr, none, some, List, [], ◌∷◌, ◌++◌, map, Bool-cases,
  Option-cases, All,
}
use mathlib.Core.List.{append-nil, append_assoc}
use cloud_commander.Text.{Text, text_eq}
use cloud_commander.Text.Laws.{text_eq→eq, text_eq_refl, text_eq-false}
use cloud_commander.Errors.{Result, ok, err, Exc, plain, >>=-eq-ok, Result-cases}
use cloud_commander.Migrations.{
  SqlServer, Sha256, File, MigrationRow, Migrated, migration_checksum, find_checksum,
  insert_migration, apply_new, apply_file, apply_files, changed_message,
}

-- The files without a row, in their order
unfoldable pub pending : List MigrationRow → List File → List File
unfolding find_checksum
pending rows [] = []
pending rows (f ∷ files) = elim (find_checksum f.0 rows) [
  | some c ↦ pending rows files
  | none ↦ f ∷ pending rows files
]

abbrev pub Recorded : ⦃sha : Sha256⦄ → List MigrationRow → File → Type 0
Recorded rows f = find_checksum f.0 rows ≡ some (migration_checksum f.1)

-- No two files of one name
abbrev pub Distinct : List File → Type 0
Distinct [] = Unit
Distinct (f ∷ files) = All (λ g. f.0 ≢ g.0) files × Distinct files

insert_migration-new :
    {S : Type 0} (name checksum : Text) (db : Migrated S)
    → find_checksum name db.rows ≡ none
    → insert_migration name checksum db ≡ ok (record db { rows = (name, checksum) ∷ db.rows })
unfolding insert_migration
insert_migration-new name checksum db e = rw (e, insert_migration) refl

module _ {S : Type 0} ⦃server : SqlServer S⦄ ⦃sha : Sha256⦄ where
  abbrev pub recorded : File → S → Migrated S → Migrated S
  recorded f schema db = record { schema = schema; rows = (f.0, migration_checksum f.1) ∷ db.rows }

  -- From one state to another by executing the files in their order, each of which had no row, was
  -- committed, and has got its row.
  pub data Ran : List File → Migrated S → Migrated S → Type 0 where
    done : {db : Migrated S} → Ran [] db db
    next :
        {f : File} {files : List File} {db db' : Migrated S} {schema : S}
        → find_checksum f.0 db.rows ≡ none
        → server.execute f.1 db.schema ≡ ok schema
        → server.commit schema ≡ ok tt
        → Ran files (recorded f schema db) db'
        → Ran (f ∷ files) db db'

  -- What one round of the loop can do
  pub data Round (f : File) (db : Migrated S) : Result (List Text) → Migrated S → Type 0 where
    skips : Recorded db.rows f → Round f db (ok []) db
    refuses :
        (c : Text)
        → find_checksum f.0 db.rows ≡ some c
        → c ≢ migration_checksum f.1
        → Round f db (err (plain (changed_message f.0))) db
    fails : (x : Exc) → find_checksum f.0 db.rows ≡ none → Round f db (err x) db
    applies :
        (schema : S)
        → find_checksum f.0 db.rows ≡ none
        → server.execute f.1 db.schema ≡ ok schema
        → server.commit schema ≡ ok tt
        → Round f db (ok (f.0 ∷ [])) (recorded f schema db)

  apply_new-eq-ok :
      (f : File) (db db' : Migrated S)
      → find_checksum f.0 db.rows ≡ none
      → apply_new f db ≡ ok db'
      → (schema : S) × (server.execute f.1 db.schema ≡ ok schema)
        × (server.commit schema ≡ ok tt)
        × (recorded f schema db ≡ db')
  unfolding apply_new insert_migration
  apply_new-eq-ok f db db' e h =
      let (schema, ex, h₁) = >>=-eq-ok (server.execute f.1 db.schema) _ h in
      let (db₁, i, h₂) = >>=-eq-ok (insert_migration f.0 _ (record db { schema = schema })) _ h₁ in
      let (_, c, same) = >>=-eq-ok (server.commit db₁.schema) _ h₂ in
      let inserted =
        insert_migration-new f.0 (migration_checksum f.1) (record db { schema = schema }) e in
      let put : recorded f schema db ≡ db₁ = cc in
      (schema, ex, ap (λ d. server.commit d.schema) put ∙ c, cc)

  pub apply_file-Round :
      (f : File) (db : Migrated S) → Round f db (apply_file f db).0 (apply_file f db).1
  unfolding apply_file
  apply_file-Round f db = elim (Option-cases (find_checksum f.0 db.rows)) [
    | inl e ↦ elim (Result-cases (apply_new f db)) [
      | inl (db', a) ↦
          let (schema, ex, c, same) = apply_new-eq-ok f db db' e a in
          rw (e, a, apply_file) (rw same at (applies schema e ex c))
      | inr (x, a) ↦ rw (e, a, apply_file) (fails x e)
    ]
    | inr (c, e) ↦ elim (Bool-cases (text_eq c (migration_checksum f.1))) [
      | inl t ↦ rw (e, t, apply_file) (skips (e ∙ ap some (text_eq→eq _ _ t)))
      | inr t ↦ rw (e, t, apply_file) (refuses c e (text_eq-false _ _ t))
    ]
  ]

pub find_checksum-other :
    (name c filename : Text) (rows : List MigrationRow)
    → name ≢ filename
    → find_checksum filename ((name, c) ∷ rows) ≡ find_checksum filename rows
unfolding find_checksum
find_checksum-other name c filename rows other = elim (Bool-cases (text_eq name filename)) [
  | inl e ↦ absurd (other (text_eq→eq name filename e))
  | inr e ↦ rw (e, find_checksum) refl
]

pub find_checksum-same :
    (name c : Text) (rows : List MigrationRow) → find_checksum name ((name, c) ∷ rows) ≡ some c
unfolding find_checksum
find_checksum-same name c rows = rw (text_eq_refl name, find_checksum) refl

pending-other :
    (name c : Text) (rows : List MigrationRow) (files : List File)
    → All (λ g. name ≢ g.0) files
    → pending ((name, c) ∷ rows) files ≡ pending rows files
unfolding pending
pending-other name c rows [] a = refl
pending-other name c rows (g ∷ files) a =
    let same = find_checksum-other name c g.0 rows a.0 in
    let rest = pending-other name c rows files a.1 in
    elim (Option-cases (find_checksum g.0 rows)) [
      | inl e ↦ rw (same ∙ e, e, pending) (ap (λ r. g ∷ r) rest)
      | inr (d, e) ↦ rw (same ∙ e, e, pending) rest
    ]

pending_new :
    (rows : List MigrationRow) (f : File) (files : List File)
    → find_checksum f.0 rows ≡ none
    → pending rows (f ∷ files) ≡ f ∷ pending rows files
unfolding pending
pending_new rows f files e = rw (e, pending) refl

pending-Recorded :
    ⦃sha : Sha256⦄ (rows : List MigrationRow) (f : File) (files : List File)
    → Recorded rows f
    → pending rows (f ∷ files) ≡ pending rows files
unfolding pending
pending-Recorded rows f files e = rw (e, pending) refl

module _ {S : Type 0} ⦃server : SqlServer S⦄ ⦃sha : Sha256⦄ where
  -- What the loop has done when it returns `r` and leaves `db'`: the files without a row are those
  -- that it ran and those that it did not, and where it returns none of these is left.
  abbrev pub Progress :
      List File → Migrated S → List Text → Result (List Text) → Migrated S → Type 0
  Progress files db applied r db' =
      (ran : List File) × (left : List File) × (pending db.rows files ≡ ran ++ left)
      × Ran ran db db'
      × (((left ≡ []) × (r ≡ ok (applied ++ map (λ f. f.0) ran))) ⊎ ((x : Exc) × (r ≡ err x)))

  -- The loop behind one round
  abbrev pub go_on :
      List File → List Text → Result (List Text) → Migrated S → Result (List Text) × Migrated S
  go_on files applied (err x) db = (err x, db)
  go_on files applied (ok names) db = apply_files files (applied ++ names) db

  pub apply_files-go_on :
      (f : File) (files : List File) (applied : List Text) (db : Migrated S)
      → apply_files (f ∷ files) applied db
        ≡ go_on files applied (apply_file f db).0 (apply_file f db).1
  unfolding apply_files
  apply_files-go_on f files applied db = elim (Result-cases (apply_file f db).0) [
    | inl (names, e) ↦ rw (e, apply_files) refl
    | inr (x, e) ↦ rw (e, apply_files) refl
  ]

  go_on-Progress :
      (f : File) (files : List File) (applied : List Text) (db : Migrated S)
      → Distinct (f ∷ files)
      → ((sofar : List Text) (d : Migrated S)
          → Progress files d sofar (apply_files files sofar d).0 (apply_files files sofar d).1)
      → (r : Result (List Text)) (db' : Migrated S) → Round f db r db'
      → Progress (f ∷ files) db applied (go_on files applied r db').0 (go_on files applied r db').1
  go_on-Progress f files applied db d rest _ _ (skips e) =
      let (ran, left, p, runs, out) = rest applied db in
      rw (append-nil applied) (ran, left, pending-Recorded db.rows f files e ∙ p, runs, out)
  go_on-Progress f files applied db d rest _ _ (refuses c e n) =
      ([], pending db.rows (f ∷ files), refl, Ran.done, inr (_, refl))
  go_on-Progress f files applied db d rest _ _ (fails x e) =
      ([], pending db.rows (f ∷ files), refl, Ran.done, inr (x, refl))
  go_on-Progress f files applied db d rest _ _ (applies schema e ex c) =
      let (ran, left, p, runs, out) = rest (applied ++ f.0 ∷ []) (recorded f schema db) in
      let todo =
        pending_new db.rows f files e
        ∙ ap (λ r. f ∷ r) (sym (pending-other f.0 _ db.rows files d.0) ∙ p) in
      (
        f ∷ ran,
        left,
        todo,
        Ran.next e ex c runs,
        rw (append_assoc applied (f.0 ∷ []) (map (λ f. f.0) ran)) at out,
      )

  pub apply_files-Progress :
      (files : List File) (applied : List Text) (db : Migrated S)
      → Distinct files
      → Progress files db applied (apply_files files applied db).0 (apply_files files applied db).1
  unfolding apply_files pending
  apply_files-Progress [] applied db d =
      ([], [], refl, Ran.done, inl (refl, ap ok (sym (append-nil applied))))
  apply_files-Progress (f ∷ files) applied db d = rw (apply_files-go_on f files applied db) (
      go_on-Progress f files applied db d (λ sofar m. apply_files-Progress files sofar m d.1) _ _
        (apply_file-Round f db))
