-- ===== src/Control/MautRollback.antt =====
-- app/control/maut_rollback.py. A dictionary is the list of its items, in the order of insertion.
pub mod Laws
use cloud_commander.Prelude.{Bool, not, ◌&&◌, Option, none, some, List, [], ◌∷◌, map, if◌then◌else◌}
use cloud_commander.Text.{Text, codes, text_eq}
use cloud_commander.Float.{Float, max_of, min_of}
use cloud_commander.Infrastructure.Adapters.{
  AdapterStatus, success, partial_failure, throttled, timeout, other_status,
}

pub record RollbackPath (F : Type 0) : Type 0 where
  pub strategy_id : Text
  pub attributes : List (Text × F)

pub record RollbackDecisionEngine (F : Type 0) : Type 0 where
  pub base_weights : List (Text × F)
  pub weights : List (Text × F)
  pub adaptive_enabled : Bool
  pub prior_infra_risk : F
  pub posterior_infra_risk : F
  pub risk_weight_scale : F

-- `weights.get(key, default)`
unfoldable pub get_weight : {F : Type 0} → Text → F → List (Text × F) → F
get_weight key default [] = default
get_weight key default ((k, v) ∷ items) = if text_eq k key then v else get_weight key default items

-- `weights[key] = value`
unfoldable pub set_weight : {F : Type 0} → Text → F → List (Text × F) → List (Text × F)
set_weight key value [] = (key, value) ∷ []
set_weight key value ((k, v) ∷ items) =
    let rest = set_weight key value items in
    if text_eq k key then (k, value) ∷ items else (k, v) ∷ rest

abbrev pub restore_time : Text
restore_time = codes "restore_time_normalized"

abbrev pub operational_risk : Text
operational_risk = codes "operational_risk_normalized"

abbrev pub infrastructure_cost : Text
infrastructure_cost = codes "infrastructure_cost_normalized"

module _ {F : Type 0} ⦃float : Float F⦄ where
  -- `sum(max(0.0, value) …)` from `acc` on
  unfoldable pub total_onto : F → List (Text × F) → F
  total_onto acc [] = acc
  total_onto acc ((k, v) ∷ items) = total_onto (float.add acc (max_of (float.lit 0 0) v)) items

  unfoldable pub normalize_weights : List (Text × F) → List (Text × F)
  unfolding total_onto
  normalize_weights weights =
      let total = total_onto (float.lit 0 0) weights in
      if float.le total (float.lit 0 0)
      then weights
      else map (λ item. (item.0, float.div (max_of (float.lit 0 0) item.1) total)) weights

  -- One donor's part of the shift
  unfoldable pub deduct : F → F → Text → List (Text × F) → List (Text × F)
  unfolding get_weight set_weight
  deduct actual_shift transferable key weights =
      let current = get_weight key (float.lit 0 0) weights in
      let deduction = float.mul actual_shift (float.div current transferable) in
      set_weight key (max_of (float.lit 0 0) (float.sub current deduction)) weights

  unfoldable pub recompute_effective_weights : RollbackDecisionEngine F → RollbackDecisionEngine F
  unfolding deduct normalize_weights
  recompute_effective_weights e =
      let weights = e.base_weights in
      let zero_weight = float.lit 0 0 in
      let risk_delta = max_of zero_weight (float.sub e.posterior_infra_risk e.prior_infra_risk) in
      let requested_shift = float.mul risk_delta e.risk_weight_scale in
      let transferable =
        float.add (float.add zero_weight (get_weight restore_time zero_weight weights))
          (get_weight infrastructure_cost zero_weight weights) in
      let actual_shift = min_of requested_shift transferable in
      let deducted =
        deduct actual_shift transferable infrastructure_cost
          (deduct actual_shift transferable restore_time weights) in
      let shifted =
        set_weight operational_risk
          (float.add (get_weight operational_risk zero_weight deducted) actual_shift) deducted in
      let used =
        if float.lt zero_weight actual_shift && float.lt zero_weight transferable
        then shifted
        else weights in
      record e { weights = normalize_weights used }

  -- `__init__`
  unfoldable pub new_engine : List (Text × F) → Bool → F → F → RollbackDecisionEngine F
  unfolding recompute_effective_weights
  new_engine weights adaptive_enabled prior_infra_risk risk_weight_scale =
      let base = normalize_weights weights in
      let prior = max_of (float.lit 0 0) (min_of (float.lit 1 0) prior_infra_risk) in
      recompute_effective_weights (record {
        base_weights = base;
        weights = base;
        adaptive_enabled = adaptive_enabled;
        prior_infra_risk = prior;
        posterior_infra_risk = prior;
        risk_weight_scale = max_of (float.lit 0 0) risk_weight_scale;
      })

  -- P(evidence | high risk) and P(evidence | low risk)
  unfoldable pub likelihoods : AdapterStatus → Option (F × F)
  likelihoods timeout = some (float.lit 85 2, float.lit 25 2)
  likelihoods partial_failure = some (float.lit 75 2, float.lit 35 2)
  likelihoods throttled = some (float.lit 70 2, float.lit 40 2)
  likelihoods success = some (float.lit 20 2, float.lit 80 2)
  likelihoods (other_status s) = none

  unfoldable pub observe_evidence :
      AdapterStatus → RollbackDecisionEngine F → RollbackDecisionEngine F
  unfolding likelihoods recompute_effective_weights
  observe_evidence status e = if not e.adaptive_enabled then e else elim (likelihoods status) [
    | none ↦ e
    | some likelihood ↦
        let high_prior = e.posterior_infra_risk in
        let low_prior = float.sub (float.lit 1 0) high_prior in
        let high = float.mul likelihood.0 high_prior in
        let denominator = float.add high (float.mul likelihood.1 low_prior) in
        if float.le denominator (float.lit 0 0)
        then e
        else recompute_effective_weights
            (record e { posterior_infra_risk = float.div high denominator })
  ]

  unfoldable pub reset_beliefs : RollbackDecisionEngine F → RollbackDecisionEngine F
  unfolding recompute_effective_weights
  reset_beliefs e =
      recompute_effective_weights (record e { posterior_infra_risk = e.prior_infra_risk })

  unfoldable pub score_onto : F → List (Text × F) → List (Text × F) → F
  unfolding get_weight
  score_onto score weights [] = score
  score_onto score weights ((attr, value) ∷ attributes) =
      score_onto (float.add score (float.mul (get_weight attr (float.lit 0 0) weights) value))
        weights attributes

  unfoldable pub score_strategy : RollbackDecisionEngine F → RollbackPath F → F
  unfolding score_onto
  score_strategy e path = score_onto (float.lit 0 0) e.weights path.attributes

  -- The loop over the paths, with the best so far
  unfoldable pub best_path :
      RollbackDecisionEngine F → F → Option Text → List (RollbackPath F) → Option Text
  unfolding score_strategy
  best_path e best_score best_strategy [] = best_strategy
  best_path e best_score best_strategy (path ∷ paths) =
      let score = score_strategy e path in
      let better = float.lt best_score score in
      best_path e (if better then score else best_score)
        (if better then some path.strategy_id else best_strategy) paths

  unfoldable pub evaluate_rollback_paths :
      RollbackDecisionEngine F → List (RollbackPath F) → Option Text
  unfolding best_path
  evaluate_rollback_paths e paths = best_path e float.minus_inf none paths
