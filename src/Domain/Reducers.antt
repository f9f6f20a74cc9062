-- ===== src/Domain/Reducers.antt =====
-- app/domain/reducers.py
use cloud_commander.Prelude.{
  Bool, true, false, not, Option, none, some, List, [], ◌∷◌, leb, if◌then◌else◌,
}
use cloud_commander.Text.{Text, codes}
use cloud_commander.Uuid.{Uuid}
use cloud_commander.Float.{Float}
use cloud_commander.Errors.{Result, ok, invalid_transition, ◌>>=◌, ◌>>◌, guard}
use cloud_commander.Security.RbacPolicy.{allocate, freeze, resolve, verify_permission}
use cloud_commander.Domain.Schemas.{
  EventPayload, allocation_requested, aggregate_frozen, drift_resolved, EventEnvelope,
  LifecycleState, active, orphaned, tombstoned, frozen, ResourceNodeSnapshot,
}

unfoldable pub frozen_message : Text
frozen_message = codes "Cannot allocate resources on a frozen node."

unfoldable pub unfrozen_message : Text
unfrozen_message = codes "Cannot resolve drift on an unfrozen node."

-- `state.lifecycle_state == "frozen"`
abbrev pub is_frozen : LifecycleState → Bool
is_frozen active = false
is_frozen orphaned = false
is_frozen tombstoned = false
is_frozen frozen = true

module _ {F : Type 0} ⦃float : Float F⦄ where
  -- The state of a node that has no event yet
  abbrev pub initial : Uuid → ResourceNodeSnapshot F
  initial node = record {
    node_id = node;
    lifecycle_state = active;
    cpu_cores = float.lit 0 0;
    memory_gb = float.lit 0 0;
    last_sequence_id = 0;
    schema_version = 1;
  }

  -- `state`, or the initial one where it is None
  abbrev pub or_initial : Option (ResourceNodeSnapshot F) → Uuid → ResourceNodeSnapshot F
  or_initial none node = initial node
  or_initial (some s) node = s

-- The `isinstance` ladder, on a state that is older than the event
unfoldable pub apply_payload :
    {F J : Type 0}
    → EventPayload F J
    → ResourceNodeSnapshot F
    → EventEnvelope F J
    → Result (ResourceNodeSnapshot F)
apply_payload (allocation_requested p) s e = do
  verify_permission e.actor_claims allocate e.aggregate_id
  guard (not (is_frozen s.lifecycle_state)) (invalid_transition frozen_message)
  ok (record s {
    cpu_cores = p.target_cpu_cores;
    memory_gb = p.target_memory_gb;
    last_sequence_id = e.sequence_id;
  })
apply_payload (aggregate_frozen p) s e = do
  verify_permission e.actor_claims freeze e.aggregate_id
  ok (record s { lifecycle_state = frozen; last_sequence_id = e.sequence_id })
apply_payload (drift_resolved p) s e = do
  verify_permission e.actor_claims resolve e.aggregate_id
  guard (is_frozen s.lifecycle_state) (invalid_transition unfrozen_message)
  ok (record s { lifecycle_state = active; last_sequence_id = e.sequence_id })
apply_payload _ s e = ok (record s { last_sequence_id = e.sequence_id })

module _ {F J : Type 0} ⦃float : Float F⦄ where
  unfoldable pub reduce_from :
      ResourceNodeSnapshot F → EventEnvelope F J → Result (ResourceNodeSnapshot F)
  unfolding apply_payload
  reduce_from s e =
      if leb e.sequence_id s.last_sequence_id then ok s else apply_payload e.payload s e

  unfoldable pub reduce_node :
      Option (ResourceNodeSnapshot F) → EventEnvelope F J → Result (ResourceNodeSnapshot F)
  unfolding reduce_from
  reduce_node state e = reduce_from (or_initial state e.aggregate_id) e

  -- `for evt in events: current_state = reduce_node(current_state, evt)`
  unfoldable pub replay :
      Option (ResourceNodeSnapshot F)
      → List (EventEnvelope F J)
      → Result (Option (ResourceNodeSnapshot F))
  unfolding reduce_node
  replay state [] = ok state
  replay state (e ∷ es) = do s ← reduce_node state e; replay (some s) es
