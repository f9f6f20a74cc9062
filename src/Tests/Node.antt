-- ===== src/Tests/Node.antt =====
-- The reducer on the events of one node.
use cloud_commander.Prelude.{◌≡◌, refl, ◌↔◌, true, none, some, List, [], ◌∷◌, ◌++◌, arith}
use cloud_commander.Text.{codes, text_eq, contains}
use cloud_commander.Errors.{ok}
use cloud_commander.Domain.Schemas.{
  EventEnvelope, ResourceNodeSnapshot, frozen, check_allocation, check_payload, check_snapshot,
}
use cloud_commander.Tests.Fixtures.{
  Fraction, Json, fractions, fractions-IsOrdered, json_codec, toy_hasher,
}
use cloud_commander.Security.RbacPolicy.{verify_permission, admin, resolve}
use cloud_commander.Security.RbacPolicy.Laws.{Permits}
use cloud_commander.Domain.Schemas.{edge_proposed, drift_resolved, reapply_internal_state}
use cloud_commander.Domain.Reducers.{initial, reduce_node, replay}
use cloud_commander.Domain.Replay.{AllAllowed, after, after_all, replay-eq-ok}
use cloud_commander.Domain.Lifecycle.{thaws, replay_frozen, replay-thaws}
use cloud_commander.Domain.Validity.{replay-check_snapshot}
use cloud_commander.Tests.Log.{event, first, second, allocate_four, freeze_node}

abbrev fresh : ResourceNodeSnapshot Fraction
fresh = initial 7

abbrev with_four : ResourceNodeSnapshot Fraction
with_four = after allocate_four 1 fresh

abbrev stopped : ResourceNodeSnapshot Fraction
stopped = after freeze_node 2 with_four

abbrev observed : EventEnvelope Fraction Json
observed =
    event 105 3 (codes "k5") (edge_proposed (record { source_node_id = 7; target_node_id = 8 }))

abbrev seen : ResourceNodeSnapshot Fraction
seen = after observed.payload 3 stopped

stream_replays : replay none (first ∷ second ∷ []) ≡ ok (some stopped)
unfolding replay reduce_node verify_permission contains text_eq admin
stream_replays = refl

stream_replays_fresh : replay (some fresh) (first ∷ second ∷ []) ≡ ok (some stopped)
unfolding replay reduce_node verify_permission contains text_eq admin
stream_replays_fresh = refl

observation_replays : replay (some stopped) (observed ∷ []) ≡ ok (some seen)
unfolding replay reduce_node
observation_replays = refl

replay-eq-ok_example : (replay (some fresh) (first ∷ second ∷ []) ≡ ok (some stopped)) ↔ (
    AllAllowed fresh (first ∷ second ∷ [])
    × (some stopped ≡ some (after_all fresh (first ∷ second ∷ []))))
replay-eq-ok_example =
    replay-eq-ok fresh (first ∷ second ∷ []) (some stopped) (omega arith, (omega arith, tt))

replay_frozen_example :
    (seen.lifecycle_state ≡ frozen)
    × (seen.cpu_cores ≡ stopped.cpu_cores)
    × (seen.memory_gb ≡ stopped.memory_gb)
replay_frozen_example =
    replay_frozen stopped seen (observed ∷ []) refl (refl, tt) observation_replays

abbrev resolved : EventEnvelope Fraction Json
resolved = event 106 3 (codes "k6") (
    drift_resolved (record { resolution_mode = reapply_internal_state; resolved_by = codes "ops" }))

abbrev thawed : ResourceNodeSnapshot Fraction
thawed = after resolved.payload 3 stopped

resolution_replays : replay (some stopped) (resolved ∷ []) ≡ ok (some thawed)
unfolding replay reduce_node verify_permission contains text_eq admin
resolution_replays = refl

replay-thaws_example :
    (before behind : List (EventEnvelope Fraction Json)) × (e : EventEnvelope Fraction Json)
    × (m : ResourceNodeSnapshot Fraction) × (resolved ∷ [] ≡ before ++ (e ∷ behind))
    × (replay (some stopped) before ≡ ok (some m))
    × (m.lifecycle_state ≡ frozen)
    × (thaws e.payload ≡ true)
    × Permits e.actor_claims resolve e.aggregate_id
replay-thaws_example = replay-thaws stopped thawed (resolved ∷ []) (λ h. cc) refl resolution_replays

replay-check_snapshot_example : check_snapshot stopped ≡ true
unfolding check_payload check_allocation
replay-check_snapshot_example =
    replay-check_snapshot fractions-IsOrdered (first ∷ second ∷ []) stopped (refl, (refl, tt))
      stream_replays
