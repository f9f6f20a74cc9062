-- ===== src/Api/Dependencies/Laws.antt =====
-- Claims that are sent are the claims that are read.
use cloud_commander.Prelude.{
  ℕ, ◌≡◌, refl, sym, ap, ◌∙◌, ◌≢◌, inl, inr, true, false, List, [], ◌∷◌, ◌++◌, arith, ◌==◌,
  Bool-cases, All,
}
use cloud_commander.Text.{Text, strip}
use cloud_commander.Text.Decimal.{Free}
use cloud_commander.Text.Strip.{Spaces, strip-Spaces, Spaces-strip}
use cloud_commander.Api.Dependencies.{
  comma, split, is_empty, stripped_parts, get_current_user_claims,
}

-- `",".join(claims)`
abbrev pub join : List Text → Text
join [] = []
join (c ∷ []) = c
join (c ∷ d ∷ cs) = c ++ comma ∷ join (d ∷ cs)

-- A claim that a header can carry: not empty, without a comma and without spaces at its ends
pub record IsClaim (c : Text) : Type 0 where
  pub nonempty : c ≢ []
  pub one_part : Free comma c
  pub trimmed : strip c ≡ c

split-Free : (sep : ℕ) (s : Text) → Free sep s → split sep s ≡ s ∷ []
unfolding split
split-Free sep [] f = refl
split-Free sep (c ∷ s) f = elim (Bool-cases (c == sep)) [
  | inl e ↦ absurd (f.0 (ground arith))
  | inr e ↦ rw (e, split) (rw (split-Free sep s f.1))
]

split-append : (sep : ℕ) (s t : Text) → Free sep s → split sep (s ++ sep ∷ t) ≡ s ∷ split sep t
unfolding split
split-append sep [] t f = ground arith
split-append sep (c ∷ s) t f = elim (Bool-cases (c == sep)) [
  | inl e ↦ absurd (f.0 (ground arith))
  | inr e ↦ rw (e, split) (rw (split-append sep s t f.1))
]

split-join :
    (c : Text) (cs : List Text) → All IsClaim (c ∷ cs) → split comma (join (c ∷ cs)) ≡ c ∷ cs
split-join c [] h = split-Free comma c h.0.one_part
split-join c (d ∷ cs) h =
    split-append comma c (join (d ∷ cs)) h.0.one_part ∙ ap (λ r. c ∷ r) (split-join d cs h.1)

nonempty-is_empty : (c : Text) → c ≢ [] → is_empty c ≡ false
nonempty-is_empty [] h = absurd (h refl)
nonempty-is_empty (x ∷ c) h = refl

is_empty-eq : (c : Text) → is_empty c ≡ true → c ≡ []
is_empty-eq [] h = refl
is_empty-eq (x ∷ c) h = cc

stripped_parts-claims : (cs : List Text) → All IsClaim cs → stripped_parts cs ≡ cs
unfolding stripped_parts
stripped_parts-claims [] h = refl
stripped_parts-claims (c ∷ cs) h =
    rw (h.0.trimmed, stripped_parts)
      (rw (nonempty-is_empty c h.0.nonempty) (ap (λ r. c ∷ r) (stripped_parts-claims cs h.1)))

Spaces-prefix : (s t : Text) → Spaces (s ++ t) → Spaces s
Spaces-prefix [] t h = tt
Spaces-prefix (c ∷ s) t h = (h.0, Spaces-prefix s t h.1)

Spaces-join : (c : Text) (cs : List Text) → Spaces (join (c ∷ cs)) → Spaces c
Spaces-join c [] h = h
Spaces-join c (d ∷ cs) h = Spaces-prefix c (comma ∷ join (d ∷ cs)) h

-- A header that joins claims with commas is read as those claims, in their order, if none is empty,
-- has a comma or has spaces at its ends.
pub get_current_user_claims-join :
    (cs : List Text) → All IsClaim cs → get_current_user_claims (join cs) ≡ cs
unfolding get_current_user_claims
get_current_user_claims-join [] h = refl
get_current_user_claims-join (c ∷ cs) h = elim (Bool-cases (is_empty (strip (join (c ∷ cs))))) [
  | inl e ↦
      let spaces =
        Spaces-join c cs (Spaces-strip (join (c ∷ cs)) (is_empty-eq (strip (join (c ∷ cs))) e)) in
      absurd (h.0.nonempty (sym h.0.trimmed ∙ strip-Spaces c spaces))
  | inr e ↦
      rw (e, get_current_user_claims)
        (ap stripped_parts (split-join c cs h) ∙ stripped_parts-claims (c ∷ cs) h)
]
