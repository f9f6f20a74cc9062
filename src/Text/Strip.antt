-- ===== src/Text/Strip.antt =====
-- A text that `strip` empties has only spaces.
use cloud_commander.Prelude.{◌≡◌, refl, inl, inr, true, [], ◌∷◌, Bool-cases, All}
use cloud_commander.Text.{Text, is_space, strip_left, reverse_onto, strip}

abbrev pub Spaces : Text → Type 0
Spaces = All (λ c. is_space c ≡ true)

strip_left-Spaces : (s : Text) → Spaces s → strip_left s ≡ []
unfolding strip_left
strip_left-Spaces [] h = refl
strip_left-Spaces (c ∷ s) h = rw (h.0) (strip_left-Spaces s h.1)

Spaces-strip_left : (s : Text) → Spaces (strip_left s) → Spaces s
unfolding strip_left
Spaces-strip_left [] h = tt
Spaces-strip_left (c ∷ s) h = elim (Bool-cases (is_space c)) [
  | inl e ↦ (e, Spaces-strip_left s (rw (e, strip_left) at h))
  | inr e ↦ (rw (e, strip_left) at h)
]

Spaces-reverse_onto : (s acc : Text) → Spaces (reverse_onto s acc) → Spaces s × Spaces acc
unfolding reverse_onto
Spaces-reverse_onto [] acc h = (tt, h)
Spaces-reverse_onto (c ∷ s) acc h =
    let (front, back) = Spaces-reverse_onto s (c ∷ acc) h in ((back.0, front), back.1)

reverse_onto-empty : (s acc : Text) → reverse_onto s acc ≡ [] → (s ≡ []) × (acc ≡ [])
unfolding reverse_onto
reverse_onto-empty [] acc h = (refl, h)
reverse_onto-empty (c ∷ s) acc h = cc ((reverse_onto-empty s (c ∷ acc) h).1)

pub strip-Spaces : (s : Text) → Spaces s → strip s ≡ []
unfolding strip
strip-Spaces s h = rw (strip_left-Spaces s h)

pub Spaces-strip : (s : Text) → strip s ≡ [] → Spaces s
unfolding strip
Spaces-strip s h =
    let inner = (reverse_onto-empty (strip_left (reverse_onto (strip_left s) [])) [] h).0 in
    let reversed = Spaces-strip_left (reverse_onto (strip_left s) []) (rw inner tt) in
    Spaces-strip_left s (Spaces-reverse_onto (strip_left s) [] reversed).0
