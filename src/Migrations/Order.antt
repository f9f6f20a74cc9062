-- ===== src/Migrations/Order.antt =====
-- Which files of the directory the loop visits, and in which order.
use cloud_commander.Prelude.{
  ◌≡◌, refl, sym, ap, ◌∙◌, ◌≢◌, ◌↔◌, ◌⊎◌, inl, inr, true, false, List, [], ◌∷◌, arith, Bool-cases,
  All, All-map, In, kept, skipped,
}
use cloud_commander.Text.{Text}
use cloud_commander.Migrations.{
  File, is_migration, text_le, glob, insert_sorted, sorted, migration_files,
}
use cloud_commander.Migrations.Progress.{Distinct}

abbrev Below : File → File → Type 0
Below f g = text_le f.0 g.0 ≡ true

-- Every file's name is at most those of the files behind it.
abbrev pub Ascending : List File → Type 0
Ascending [] = Unit
Ascending (f ∷ files) = All (λ g. text_le f.0 g.0 ≡ true) files × Ascending files

text_le_total : (s t : Text) → text_le s t ≡ false → text_le t s ≡ true
unfolding text_le
text_le_total [] t h = cc
text_le_total (c ∷ s) [] h = refl
text_le_total (c ∷ s) (d ∷ t) h = ground (arith, text_le_total s t)

text_le_trans : (s t u : Text) → text_le s t ≡ true → text_le t u ≡ true → text_le s u ≡ true
unfolding text_le
text_le_trans [] t u h k = refl
text_le_trans (c ∷ s) [] u h k = cc
text_le_trans (c ∷ s) (d ∷ t) [] h k = cc
text_le_trans (c ∷ s) (d ∷ t) (e ∷ u) h k = ground (arith, text_le_trans s t u)

insert_sorted-All :
    (P : File → Type 0) (f : File) (files : List File)
    → P f
    → All P files
    → All P (insert_sorted f files)
unfolding insert_sorted
insert_sorted-All P f [] p a = (p, tt)
insert_sorted-All P f (g ∷ files) p a = elim (Bool-cases (text_le f.0 g.0)) [
  | inl e ↦ rw (e, insert_sorted) (p, a)
  | inr e ↦ rw (e, insert_sorted) (a.0, insert_sorted-All P f files p a.1)
]

insert_sorted-Ascending :
    (f : File) (files : List File) → Ascending files → Ascending (insert_sorted f files)
unfolding insert_sorted
insert_sorted-Ascending f [] a = (tt, tt)
insert_sorted-Ascending f (g ∷ files) a = elim (Bool-cases (text_le f.0 g.0)) [
  | inl e ↦
      rw (e, insert_sorted)
        ((e, All-map (Below g) (Below f) (λ h. text_le_trans f.0 g.0 h.0 e) files a.0), a)
  | inr e ↦
      rw (e, insert_sorted)
        (
          insert_sorted-All (Below g) f files (text_le_total f.0 g.0 e) a.0,
          insert_sorted-Ascending f files a.1,
        )
]

insert_sorted-Distinct :
    (f : File) (files : List File)
    → All (λ g. f.0 ≢ g.0) files
    → Distinct files
    → Distinct (insert_sorted f files)
unfolding insert_sorted
insert_sorted-Distinct f [] n d = (tt, tt)
insert_sorted-Distinct f (g ∷ files) n d = elim (Bool-cases (text_le f.0 g.0)) [
  | inl e ↦ rw (e, insert_sorted) (n, d)
  | inr e ↦
      rw (e, insert_sorted)
        (
          insert_sorted-All (λ h. g.0 ≢ h.0) f files (λ h. n.0 (sym h)) d.0,
          insert_sorted-Distinct f files n.1 d.1,
        )
]

module _ {A B C D : Type 0} where
  -- Membership behind an element that stays in front
  behind : A ↔ (B ⊎ C) → (D ⊎ A) ↔ (B ⊎ (D ⊎ C))
  behind h = (forth, back)
    where
      forth : D ⊎ A → B ⊎ (D ⊎ C)
      forth (inl d) = inr (inl d)
      forth (inr a) = elim (h.0 a) [ inl b ↦ inl b | inr c ↦ inr (inr c) ]

      back : B ⊎ (D ⊎ C) → D ⊎ A
      back (inl b) = inr (h.1 (inl b))
      back (inr (inl d)) = inl d
      back (inr (inr c)) = inr (h.1 (inr c))

  -- Membership in the rest of a list that is replaced
  within : A ↔ (B ⊎ C) → C ↔ D → A ↔ (B ⊎ D)
  within h k = (forth, back)
    where
      forth : A → B ⊎ D
      forth a = elim (h.0 a) [ inl b ↦ inl b | inr c ↦ inr (k.0 c) ]

      back : B ⊎ D → A
      back (inl b) = h.1 (inl b)
      back (inr d) = h.1 (inr (k.1 d))

insert_sorted-In :
    (f x : File) (files : List File) → In x (insert_sorted f files) ↔ ((x ≡ f) ⊎ In x files)
unfolding insert_sorted
insert_sorted-In f x [] = (λ i. i, λ i. i)
insert_sorted-In f x (g ∷ files) = elim (Bool-cases (text_le f.0 g.0)) [
  | inl e ↦ rw (e, insert_sorted) (λ i. i, λ i. i)
  | inr e ↦ rw (e, insert_sorted) (behind (insert_sorted-In f x files))
]

sorted-All : (P : File → Type 0) (files : List File) → All P files → All P (sorted files)
unfolding sorted
sorted-All P [] a = tt
sorted-All P (f ∷ files) a = insert_sorted-All P f (sorted files) a.0 (sorted-All P files a.1)

sorted-Ascending : (files : List File) → Ascending (sorted files)
unfolding sorted
sorted-Ascending [] = tt
sorted-Ascending (f ∷ files) = insert_sorted-Ascending f (sorted files) (sorted-Ascending files)

sorted-Distinct : (files : List File) → Distinct files → Distinct (sorted files)
unfolding sorted
sorted-Distinct [] d = tt
sorted-Distinct (f ∷ files) d =
    insert_sorted-Distinct f (sorted files) (sorted-All _ files d.0) (sorted-Distinct files d.1)

sorted-In : (x : File) (files : List File) → In x (sorted files) ↔ In x files
unfolding sorted
sorted-In x [] = (λ i. i, λ i. i)
sorted-In x (f ∷ files) = within (insert_sorted-In f x (sorted files)) (sorted-In x files)

glob-All : (P : File → Type 0) (dir : List File) → All P dir → All P (glob dir)
unfolding glob
glob-All P [] a = tt
glob-All P (f ∷ dir) a = elim (Bool-cases (is_migration f.0)) [
  | inl e ↦ rw (e, glob) (a.0, glob-All P dir a.1)
  | inr e ↦ rw (e, glob) (glob-All P dir a.1)
]

glob-Distinct : (dir : List File) → Distinct dir → Distinct (glob dir)
unfolding glob
glob-Distinct [] d = tt
glob-Distinct (f ∷ dir) d = elim (Bool-cases (is_migration f.0)) [
  | inl e ↦ rw (e, glob) (glob-All _ dir d.0, glob-Distinct dir d.1)
  | inr e ↦ rw (e, glob) (glob-Distinct dir d.1)
]

glob-In : (x : File) (dir : List File) → In x (glob dir) ↔ (In x dir × (is_migration x.0 ≡ true))
unfolding glob
glob-In x [] = (λ i. absurd i, λ i. i.0)
glob-In x (f ∷ dir) = elim (Bool-cases (is_migration f.0)) [
  | inl e ↦
      rw (e, glob) (kept (λ i. i, λ i. i) (glob-In x dir) (λ h. ap (λ g. is_migration g.0) h ∙ e))
  | inr e ↦ rw (e, glob) (skipped (glob-In x dir) (λ h q. cc (ap (λ g. is_migration g.0) h, e, q)))
]

pub migration_files-Distinct : (dir : List File) → Distinct dir → Distinct (migration_files dir)
unfolding migration_files
migration_files-Distinct dir d = sorted-Distinct (glob dir) (glob-Distinct dir d)

pub migration_files_exact :
    (dir : List File)
    → Ascending (migration_files dir)
      × ((f : File) → In f (migration_files dir) ↔ (In f dir × (is_migration f.0 ≡ true)))
unfolding migration_files
migration_files_exact dir = (
  sorted-Ascending (glob dir),
  λ f. (
    λ i. (glob-In f dir).0 ((sorted-In f (glob dir)).0 i),
    λ i. (sorted-In f (glob dir)).1 ((glob-In f dir).1 i),
  ),
)
