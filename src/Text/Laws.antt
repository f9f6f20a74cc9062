-- ===== src/Text/Laws.antt =====
-- Laws of the string operations.
use cloud_commander.Prelude.{
  ◌≡◌, refl, ◌≢◌, ◌↔◌, inl, inr, true, false, List, [], ◌∷◌, arith, Bool-cases, In,
}
use cloud_commander.Text.{Text, text_eq, contains}

pub text_eq→eq : (s t : Text) → text_eq s t ≡ true → s ≡ t
unfolding text_eq
text_eq→eq [] [] h = refl
text_eq→eq [] (d ∷ t) h = cc
text_eq→eq (c ∷ s) [] h = cc
text_eq→eq (c ∷ s) (d ∷ t) h = ground (arith, text_eq→eq s t)

pub text_eq_refl : (s : Text) → text_eq s s ≡ true
unfolding text_eq
text_eq_refl [] = refl
text_eq_refl (c ∷ s) = ground (arith, text_eq_refl s)

pub text_eq_iff : (s t : Text) → (text_eq s t ≡ true) ↔ (s ≡ t)
text_eq_iff s t = (text_eq→eq s t, λ e. rw e (text_eq_refl t))

pub contains-In : (t : Text) (xs : List Text) → contains t xs ≡ true → In t xs
unfolding contains
contains-In t [] h = cc
contains-In t (x ∷ xs) h = elim (Bool-cases (text_eq t x)) [
  | inl e ↦ inl (text_eq→eq t x e)
  | inr e ↦ inr (contains-In t xs (rw e at h))
]

pub In-contains : (t : Text) (xs : List Text) → In t xs → contains t xs ≡ true
unfolding contains
In-contains t [] h = absurd h
In-contains t (x ∷ xs) (inl e) = rw (← e, text_eq_refl t)
In-contains t (x ∷ xs) (inr e) = ground (arith, In-contains t xs e)

pub text_eq-false : (s t : Text) → text_eq s t ≡ false → s ≢ t
text_eq-false s t h e = cc (h, (text_eq_iff s t).1 e)
