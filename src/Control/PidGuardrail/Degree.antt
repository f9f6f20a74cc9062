-- ===== src/Control/PidGuardrail/Degree.antt =====
-- The memberships that a signal gets, and the label that is chosen.
use cloud_commander.Prelude.{◌≡◌, refl, inl, inr, true, false, arith, Bool-cases}
use cloud_commander.Float.{Float, IsOrdered}
use cloud_commander.Float.Clamp.{Within, clamp-Within, Within-number}
use cloud_commander.Control.PidGuardrail.{
  Label, stable, drifting, volatile, key_lt, higher, classify_instability,
}

module _ {F : Type 0} ⦃float : Float F⦄ (laws : IsOrdered F) where
  -- `max` returns an item that no other exceeds, where all are numbers.
  key_lt-le :
      (membership : Label → F) (l m : Label)
      → key_lt membership l m ≡ true
      → float.le (membership l) (membership m) ≡ true
  key_lt-le membership l m h = elim (Bool-cases (float.eq (membership l) (membership m))) [
    | inl e ↦ (laws.eq_le _ _ e).0
    | inr e ↦ laws.lt_le _ _ (rw e at h)
  ]

  key_lt-ge :
      (membership : Label → F) (l m : Label)
      → float.le (membership l) (membership l) ≡ true
      → float.le (membership m) (membership m) ≡ true
      → key_lt membership l m ≡ false
      → float.le (membership m) (membership l) ≡ true
  key_lt-ge membership l m p q h = elim (Bool-cases (float.eq (membership l) (membership m))) [
    | inl e ↦ (laws.eq_le _ _ e).1
    | inr e ↦ laws.lt_total _ _ p q (rw e at h)
  ]

  higher-le :
      (membership : Label → F) (l m : Label)
      → ((k : Label) → float.le (membership k) (membership k) ≡ true)
      → (float.le (membership l) (membership (higher membership l m)) ≡ true)
        × (float.le (membership m) (membership (higher membership l m)) ≡ true)
  higher-le membership l m numbers = elim (Bool-cases (key_lt membership l m)) [
    | inl e ↦ rw e (key_lt-le membership l m e, numbers m)
    | inr e ↦ rw e (numbers l, key_lt-ge membership l m (numbers l) (numbers m) e)
  ]

  abbrev Numbers : (Label → F) → Type 0
  Numbers membership = (k : Label) → float.le (membership k) (membership k) ≡ true

  first :
      (membership : Label → F)
      → Numbers membership
      → (float.le (membership stable) (membership (higher membership stable drifting)) ≡ true)
        × (float.le (membership drifting) (membership (higher membership stable drifting)) ≡ true)
  first membership numbers = higher-le membership stable drifting numbers

  last :
      (membership : Label → F)
      → Numbers membership
      → let best = higher membership stable drifting in
        (float.le (membership best) (membership (higher membership best volatile)) ≡ true)
        × (float.le (membership volatile) (membership (higher membership best volatile)) ≡ true)
  last membership numbers =
      higher-le membership (higher membership stable drifting) volatile numbers

  highest :
      (membership : Label → F) (k : Label)
      → ((l : Label) → float.le (membership l) (membership l) ≡ true)
      → float.le
          (membership k)
          (membership (higher membership (higher membership stable drifting) volatile))
        ≡ true
  highest membership stable numbers =
      laws.le_trans _ _ _ (first membership numbers).0 (last membership numbers).0
  highest membership drifting numbers =
      laws.le_trans _ _ _ (first membership numbers).1 (last membership numbers).0
  highest membership volatile numbers = (last membership numbers).1

  -- Each membership of a signal lies between 0 and 1, and none is above the degree, which is the
  -- membership of the chosen label: for every signal, also for one that is not a number, if floats
  -- are ordered as doubles are.
  pub classify_instability-highest :
      (signal : F) (k : Label)
      → let s = classify_instability signal in
        Within laws (float.lit 0 0) (float.lit 1 0) (s.membership k)
        × (s.degree ≡ s.membership s.label)
        × (float.le (s.membership k) s.degree ≡ true)
  unfolding classify_instability
  classify_instability-highest signal k =
      let between = laws.lit_le 0 0 1 0 (omega arith) in
      let low = laws.lit_le 0 0 0 0 (omega arith) in
      let high = laws.lit_le 1 0 1 0 (omega arith) in
      let within : (l : Label)
          → Within laws (float.lit 0 0) (float.lit 1 0)
              ((classify_instability signal).membership l) =
        λ l. clamp-Within laws _ _ _ between low high in
      (
        within k,
        refl,
        highest (classify_instability signal).membership k
            (λ l. Within-number laws _ _ _ (within l)),
      )
