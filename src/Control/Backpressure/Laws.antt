-- ===== src/Control/Backpressure/Laws.antt =====
-- What the window holds.
use cloud_commander.Prelude.{
  ◌≡◌, ◌↔◌, inl, inr, true, false, List, [], ◌∷◌, Bool-cases, All, In, All-In, skipped,
}
use cloud_commander.Float.{Float, IsOrdered}
use cloud_commander.Control.Backpressure.{BackpressureManager, drop_before, prune}

-- The times of a deque, the oldest first
abbrev pub Ascending : {F : Type 0} ⦃float : Float F⦄ → List F → Type 0
Ascending [] = Unit
Ascending ⦃float = float⦄ (t ∷ times) = All (λ u. float.le t u ≡ true) times × Ascending times

-- The cutoff of the window at `now`
abbrev pub cutoff_of : {F : Type 0} ⦃float : Float F⦄ → F → BackpressureManager F → F
cutoff_of ⦃float = float⦄ now m = float.sub now (float.lit m.window_seconds 0)

module _ {F : Type 0} ⦃float : Float F⦄ (laws : IsOrdered F) where
  abbrev Recent : F → F → Type 0
  Recent cutoff t = float.lt t cutoff ≡ false

  Recent-after : (cutoff t u : F) → Recent cutoff t → float.le t u ≡ true → Recent cutoff u
  Recent-after cutoff t u r h = elim (Bool-cases (float.lt u cutoff)) [
    | inl e ↦ cc (r, laws.le-lt_trans t u cutoff h e)
    | inr e ↦ e
  ]

  All-Recent :
      (cutoff t x : F) (times : List F)
      → Recent cutoff t
      → All (λ u. float.le t u ≡ true) times
      → In x (t ∷ times)
      → Recent cutoff x
  All-Recent cutoff t x times r a (inl e) = rw e r
  All-Recent cutoff t x times r a (inr i) =
      Recent-after cutoff t x r (All-In (λ u. float.le t u ≡ true) x times a i)

  drop_before-In :
      (cutoff x : F) (times : List F)
      → Ascending times
      → In x (drop_before cutoff times) ↔ (In x times × Recent cutoff x)
  unfolding drop_before
  drop_before-In cutoff x [] a = (λ i. absurd i, λ i. i.0)
  drop_before-In cutoff x (t ∷ times) a =
      let ih = drop_before-In cutoff x times a.1 in
      elim (Bool-cases (float.lt t cutoff)) [
        | inl e ↦ rw (e, drop_before) (skipped ih (λ same r. cc (e, rw same at r)))
        | inr e ↦ rw (e, drop_before) (λ i. (i, All-Recent cutoff t x times e a.0 i), λ i. i.0)
      ]

  -- After pruning, each deque holds exactly those of its times that are not before the start of the
  -- window, if its times are in ascending order and floats are ordered as doubles are.
  pub prune-In :
      (now x : F) (m : BackpressureManager F)
      → Ascending m.arrivals
      → Ascending m.completions
      → (In x (prune now m).arrivals ↔ (In x m.arrivals × (float.lt x (cutoff_of now m) ≡ false)))
        × (In x (prune now m).completions
            ↔ (In x m.completions × (float.lt x (cutoff_of now m) ≡ false)))
  unfolding prune
  prune-In now x m a c = (
    drop_before-In (cutoff_of now m) x m.arrivals a,
    drop_before-In (cutoff_of now m) x m.completions c,
  )
