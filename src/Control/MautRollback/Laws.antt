-- ===== src/Control/MautRollback/Laws.antt =====
-- The choice of a path.
use cloud_commander.Prelude.{
  ◌≡◌, refl, ◌⊎◌, inl, inr, true, false, Option, none, some, List, [], ◌∷◌, Bool-cases, All, In,
}
use cloud_commander.Text.{Text}
use cloud_commander.Float.{Float, IsOrdered}
use cloud_commander.Control.MautRollback.{
  RollbackPath, RollbackDecisionEngine, score_strategy, best_path, evaluate_rollback_paths,
}

module _ {F : Type 0} ⦃float : Float F⦄ (laws : IsOrdered F) (e : RollbackDecisionEngine F) where
  -- No path of the list scores above `s`.
  abbrev pub Tops : F → List (RollbackPath F) → Type 0
  Tops s paths = All (λ p. float.lt s (score_strategy e p) ≡ false) paths

  not_above : (x y z : F) → float.lt x y ≡ true → float.lt x z ≡ false → float.lt y z ≡ false
  not_above x y z h g = elim (Bool-cases (float.lt y z)) [
    | inl a ↦ cc (g, laws.lt_trans x y z h a)
    | inr a ↦ a
  ]

  -- What the loop returns: what it was given, which no path beats, or a path that none beats.
  abbrev Chooses : F → Option Text → List (RollbackPath F) → Option Text → Type 0
  Chooses s best paths r =
      ((r ≡ best) × Tops s paths)
      ⊎ ((p : RollbackPath F) × In p paths
          × (r ≡ some p.strategy_id)
          × (float.lt s (score_strategy e p) ≡ true)
          × Tops (score_strategy e p) paths)

  best_path-Chooses :
      (s : F) (best : Option Text) (paths : List (RollbackPath F))
      → Chooses s best paths (best_path e s best paths)
  unfolding best_path
  best_path-Chooses s best [] = inl (refl, tt)
  best_path-Chooses s best (p ∷ paths) =
      let score = score_strategy e p in
      elim (Bool-cases (float.lt s score)) [
        | inl better ↦
            rw (better, best_path)
              (elim (best_path-Chooses score (some p.strategy_id) paths) [
                | inl (same, tops) ↦ inr (p, inl refl, same, better, (laws.lt_irrefl score, tops))
                | inr (q, there, same, above, tops) ↦ inr (
                  q,
                  inr there,
                  same,
                  laws.lt_trans s score (score_strategy e q) better above,
                  (not_above score (score_strategy e q) score above (laws.lt_irrefl score), tops),
                )
              ])
        | inr worse ↦
            rw (worse, best_path)
              (elim (best_path-Chooses s best paths) [
                | inl (same, tops) ↦ inl (same, (refl, tops))
                | inr (q, there, same, above, tops) ↦ inr (
                  q,
                  inr there,
                  same,
                  above,
                  (not_above s (score_strategy e q) score above worse, tops),
                )
              ])
      ]

  -- The engine chooses a path of the list that no path outscores, or none where no path scores
  -- above minus infinity, if floats are ordered as doubles are.
  pub evaluate_rollback_paths-best :
      (paths : List (RollbackPath F))
      → ((evaluate_rollback_paths e paths ≡ none) × Tops float.minus_inf paths)
        ⊎ ((p : RollbackPath F) × In p paths
            × (evaluate_rollback_paths e paths ≡ some p.strategy_id)
            × Tops (score_strategy e p) paths)
  unfolding evaluate_rollback_paths
  evaluate_rollback_paths-best paths = elim (best_path-Chooses float.minus_inf none paths) [
    | inl found ↦ inl found
    | inr (p, there, same, above, tops) ↦ inr (p, there, same, tops)
  ]
