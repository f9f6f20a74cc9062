-- ===== src/Worker/Reconciler.antt =====
-- app/worker/reconciler.py. The reconciler keeps its adapter and its decision engine.
use cloud_commander.Prelude.{true, Option, none, some, List, [], ◌∷◌, ◌++◌}
use cloud_commander.Text.{Text, codes}
use cloud_commander.Float.{Float}
use cloud_commander.Errors.{Result, ok, err, plain}
use cloud_commander.Domain.Schemas.{ResourceAllocationRequested}
use cloud_commander.Infrastructure.Adapters.{
  AdapterStatus, success, partial_failure, throttled, timeout, other_status, status_str,
  CloudAdapter,
}
use cloud_commander.Control.MautRollback.{
  RollbackPath, RollbackDecisionEngine, restore_time, operational_risk, infrastructure_cost,
  new_engine, observe_evidence, evaluate_rollback_paths,
}

pub record Reconciler (F A : Type 0) : Type 0 where
  pub adapter : A
  pub decision_engine : RollbackDecisionEngine F

abbrev pub full_revert : Text
full_revert = codes "full_revert"

abbrev pub forward_fix_retry : Text
forward_fix_retry = codes "forward_fix_retry"

-- f"{best_strategy}" is "None" for None.
abbrev pub strategy_str : Option Text → Text
strategy_str none = codes "None"
strategy_str (some s) = s

abbrev pub compensating_prefix : Text
compensating_prefix = codes "compensating_via_"

module _ {F : Type 0} ⦃float : Float F⦄ where
  abbrev pub default_maut_weights : List (Text × F)
  default_maut_weights =
      (restore_time, float.lit 5 1)
      ∷ (operational_risk, float.lit 3 1)
      ∷ (infrastructure_cost, float.lit 2 1)
      ∷ []

  abbrev pub path_of : Text → F → F → F → RollbackPath F
  path_of strategy time risk cost = record {
    strategy_id = strategy;
    attributes = (restore_time, time) ∷ (operational_risk, risk) ∷ (infrastructure_cost, cost) ∷ [];
  }

  abbrev pub available_paths : List (RollbackPath F)
  available_paths =
      path_of full_revert (float.lit 8 1) (float.lit 9 1) (float.lit 4 1)
      ∷ path_of forward_fix_retry (float.lit 3 1) (float.lit 4 1) (float.lit 9 1)
      ∷ []

  -- `ReconcilerLoop(adapter)`
  unfoldable pub new_reconciler : {A : Type 0} → A → Reconciler F A
  new_reconciler adapter = record {
    adapter = adapter;
    decision_engine = new_engine default_maut_weights true (float.lit 35 2) (float.lit 45 2);
  }

  unfoldable pub handle_partial_failure : RollbackDecisionEngine F → Text
  unfolding evaluate_rollback_paths
  handle_partial_failure e =
      compensating_prefix ++ strategy_str (evaluate_rollback_paths e available_paths)

  -- What the intent's status leads to
  unfoldable pub intent_outcome : RollbackDecisionEngine F → AdapterStatus → Result Text
  unfolding handle_partial_failure status_str
  intent_outcome e success = ok (codes "completed")
  intent_outcome e partial_failure = ok (handle_partial_failure e)
  intent_outcome e throttled =
      err (plain (codes "Transient adapter failure: " ++ status_str throttled))
  intent_outcome e timeout = err (plain (codes "Transient adapter failure: " ++ status_str timeout))
  intent_outcome e (other_status s) = ok (codes "failed")

  unfoldable pub execute_intent :
      {A : Type 0}
      → ⦃adapters : CloudAdapter F A⦄ → Text
      → Text
      → ResourceAllocationRequested F
      → Reconciler F A
      → Result Text × Reconciler F A
  unfolding intent_outcome observe_evidence
  execute_intent ⦃adapters = adapters⦄ event_id aggregate_id payload s =
      let (result, adapter) = adapters.apply_allocation aggregate_id payload s.adapter in
      let engine = observe_evidence result.status s.decision_engine in
      (intent_outcome engine result.status, record { adapter = adapter; decision_engine = engine })
