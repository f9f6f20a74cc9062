-- ===== src/Tests/Commands.antt =====
-- Commands on the log of one node.
use cloud_commander.Prelude.{◌≡◌, refl, some, [], ◌∷◌}
use cloud_commander.Text.{codes, text_eq, contains}
use cloud_commander.Errors.{ok, err}
use cloud_commander.Domain.Schemas.{EventEnvelope, ResourceNodeSnapshot}
use cloud_commander.Infrastructure.Database.{Db, any, columns_fit}
use cloud_commander.Infrastructure.Repository.{
  select_events, verify_rows, event_row, map_records, get_events, sequence_message,
}
use cloud_commander.Tests.Fixtures.{
  Fraction, Json, fractions, json_codec, toy_hasher, toy_hasher-Digests,
}
use cloud_commander.Errors.{invalid_transition, http}
use cloud_commander.Security.RbacPolicy.{verify_permission, admin}
use cloud_commander.Domain.Reducers.{initial, reduce_node, replay, frozen_message}
use cloud_commander.Domain.Replay.{after}
use cloud_commander.Api.Commands.{Request, http_of_rejection, validate, validate_and_append}
use cloud_commander.Api.Commands.Validation.{Answers, reduce_node-Answers, second_writer_conflict}
use cloud_commander.Tests.Log.{
  event, first, rival, allocate_four, freeze_node, empty, one_event, empty-IsWellFormed, first-done,
}

abbrev frozen_node : ResourceNodeSnapshot Fraction
frozen_node = after freeze_node 2 (after allocate_four 1 (initial 7))

abbrev third : EventEnvelope Fraction Json
third = event 106 3 (codes "k6") allocate_four

-- A command for a place that the stream has passed, by an actor without claims
abbrev late : EventEnvelope Fraction Json
late = record (event 107 1 (codes "k7") allocate_four) { actor_claims = [] }

third_refused : reduce_node (some frozen_node) third ≡ err (invalid_transition frozen_message)
unfolding reduce_node verify_permission contains text_eq admin
third_refused = refl

reduce_node-Answers_example : Answers (http_of_rejection (invalid_transition frozen_message))
reduce_node-Answers_example = reduce_node-Answers (some frozen_node) third _ third_refused

abbrev appended_first : Db Fraction Json → Db Fraction Json
appended_first db = one_event

rival_valid : validate rival 1 empty ≡ ok tt
unfolding validate get_events select_events verify_rows map_records replay reduce_node
    verify_permission contains text_eq admin
rival_valid = refl

second_writer_conflict_example :
    validate_and_append 200 rival 1 appended_first empty
    ≡ (err (http 409 (sequence_message 1 7)), one_event)
unfolding columns_fit any event_row
second_writer_conflict_example =
    second_writer_conflict toy_hasher-Digests 100 200 first rival 1 appended_first empty
      empty-IsWellFormed first-done rival_valid refl refl refl refl refl refl

abbrev request : Request
request = record {
  x_idempotency_key = codes "k8";
  x_expected_version = 0;
  tenant_id = 1;
  actor_id = codes "ops";
  actor_claims = codes "admin" ∷ [];
}
