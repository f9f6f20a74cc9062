-- ===== src/Float/Clamp.antt =====
-- `max(lo, min(hi, x))` lies between the bounds, also for a NaN.
use cloud_commander.Prelude.{◌≡◌, inl, inr, true, Bool-cases}
use cloud_commander.Float.{Float, IsOrdered, max_of, min_of}

module _ {F : Type 0} ⦃float : Float F⦄ (laws : IsOrdered F) where
  abbrev pub Within : F → F → F → Type 0
  Within lo hi x = (float.le lo x ≡ true) × (float.le x hi ≡ true)

  pub clamp-Within :
      (lo hi x : F)
      → float.le lo hi ≡ true
      → float.le lo lo ≡ true
      → float.le hi hi ≡ true
      → Within lo hi (max_of lo (min_of hi x))
  clamp-Within lo hi x across low high = elim (Bool-cases (float.lt x hi)) [
    | inl e ↦ elim (Bool-cases (float.lt lo x)) [
      | inl l ↦ rw (e, l) (laws.lt_le lo x l, laws.lt_le x hi e)
      | inr l ↦ rw (e, l) (low, across)
    ]
    | inr e ↦ elim (Bool-cases (float.lt lo hi)) [
      | inl l ↦ rw (e, l) (across, high)
      | inr l ↦ rw (e, l) (low, across)
    ]
  ]

  -- A value between bounds is a number.
  pub Within-number : (lo hi x : F) → Within lo hi x → float.le x x ≡ true
  Within-number lo hi x w = (laws.le_number lo x w.0).1
