-- ===== src/Worker/Processing/Outcome.antt =====
-- The outcome of an intent, from the adapter's status to the worker's decisions.
use cloud_commander.Prelude.{◌≡◌, refl, ◌⊎◌, inl, inr, Bool, true, false, Option, none, some, arith}
use cloud_commander.Text.{Text}
use cloud_commander.Uuid.{uuid_str}
use cloud_commander.Domain.Schemas.{
  EventEnvelope, ResourceAllocationRequested, allocation_requested,
}
use cloud_commander.Infrastructure.Adapters.{
  AdapterStatus, success, partial_failure, throttled, timeout, other_status, CloudAdapter,
}
use cloud_commander.Worker.Reconciler.{Reconciler, intent_outcome, execute_intent}
use cloud_commander.Worker.Records.{LibraryTexts, reconcile_answer, evaluate_payload}
use cloud_commander.Float.{Float}
use cloud_commander.Control.MautRollback.{
  RollbackDecisionEngine, evaluate_rollback_paths, best_path,
}
use cloud_commander.Worker.Reconciler.{
  strategy_str, full_revert, forward_fix_retry, available_paths, handle_partial_failure,
}
use cloud_commander.Worker.Processing.{should_apply_projection, extract_compensation_strategy}

-- A failure that the outbox is to retry
abbrev pub is_transient : AdapterStatus → Bool
is_transient throttled = true
is_transient timeout = true
is_transient _ = false

abbrev pub is_success : AdapterStatus → Bool
is_success success = true
is_success _ = false

abbrev pub is_some : Option Text → Bool
is_some none = false
is_some (some x) = true

module _ {F : Type 0} ⦃float : Float F⦄ (e : RollbackDecisionEngine F) where
  -- The engine's answer is one of the two paths, or none.
  available-cases :
      (evaluate_rollback_paths e available_paths ≡ none)
      ⊎ ((evaluate_rollback_paths e available_paths ≡ some full_revert)
          ⊎ (evaluate_rollback_paths e available_paths ≡ some forward_fix_retry))
  unfolding evaluate_rollback_paths best_path
  available-cases = ground arith

  extract-handle_partial_failure :
      extract_compensation_strategy (handle_partial_failure e)
      ≡ some (strategy_str (evaluate_rollback_paths e available_paths))
  unfolding extract_compensation_strategy handle_partial_failure
  extract-handle_partial_failure = elim available-cases [
    | inl a ↦ rw (a, handle_partial_failure)
    | inr (inl a) ↦ rw (a, handle_partial_failure)
    | inr (inr a) ↦ rw (a, handle_partial_failure)
  ]

  -- The strategy that an answer of the adapter is compensated by
  abbrev pub compensation_for : AdapterStatus → Option Text
  compensation_for partial_failure = some (strategy_str (evaluate_rollback_paths e available_paths))
  compensation_for _ = none

  -- What the worker goes on to do with an intent's answer
  abbrev pub Decides : AdapterStatus → Text × Option Text → Type 0
  Decides status answer =
      (should_apply_projection answer.0 answer.1 ≡ is_success status)
      × (is_some answer.1 ≡ is_transient status)
      × (extract_compensation_strategy answer.0 ≡ compensation_for status)

  partial-should : should_apply_projection (handle_partial_failure e) none ≡ false
  unfolding handle_partial_failure should_apply_projection
  partial-should = refl

  intent_outcome-Decides :
      ⦃texts : LibraryTexts⦄ (status : AdapterStatus)
      → Decides status (reconcile_answer (intent_outcome e status))
  unfolding intent_outcome should_apply_projection extract_compensation_strategy
  intent_outcome-Decides success = (refl, refl, refl)
  intent_outcome-Decides partial_failure = (partial-should, refl, extract-handle_partial_failure)
  intent_outcome-Decides throttled = (refl, refl, refl)
  intent_outcome-Decides timeout = (refl, refl, refl)
  intent_outcome-Decides (other_status s) = (refl, refl, refl)

module _ {F J A : Type 0} ⦃float : Float F⦄ ⦃adapters : CloudAdapter F A⦄
    ⦃texts : LibraryTexts⦄ where
  -- For an allocation the projection applies exactly if the adapter reports success, the outbox
  -- retries exactly if it reports throttling or a timeout, and a compensation is due exactly if it
  -- reports a partial failure, for the strategy that the engine chooses with the evidence of this
  -- answer.
  pub evaluate_payload-Decides :
      (event : EventEnvelope F J) (p : ResourceAllocationRequested F) (s : Reconciler F A)
      → let status =
          (adapters.apply_allocation (uuid_str event.aggregate_id) p s.adapter).0.status in
        let (answer, s') = evaluate_payload event (allocation_requested p) s in
        Decides s'.decision_engine status answer
  unfolding evaluate_payload execute_intent
  evaluate_payload-Decides event p s =
      let s' = (evaluate_payload event (allocation_requested p) s).1 in
      intent_outcome-Decides s'.decision_engine _
