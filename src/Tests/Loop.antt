-- ===== src/Tests/Loop.antt =====
-- A worker that polls once and is stopped, and the parts of its turn.
use cloud_commander.Prelude.{
  ℕ, ◌≡◌, refl, inl, Bool, true, false, none, some, [], ◌∷◌, arith, leb, In,
}
use cloud_commander.Text.{codes}
use cloud_commander.Infrastructure.Database.{Db, OutboxRow, failed}
use cloud_commander.Infrastructure.Repository.Append.{outbox_row}
use cloud_commander.Infrastructure.Adapters.{MockAwsAdapter, mock_aws}
use cloud_commander.Float.Clamp.{Within}
use cloud_commander.Control.PidGuardrail.{drifting, classify_instability}
use cloud_commander.Control.PidGuardrail.Degree.{classify_instability-highest}
use cloud_commander.Worker.Outbox.{
  due, claim_row, failed_row, processed_row, mark_processed, mark_failed,
}
use cloud_commander.Worker.Outbox.Stale.{mark_failed-late}
use cloud_commander.Worker.Records.{WorkerState}
use cloud_commander.Worker.Loop.{Round, run}
use cloud_commander.Worker.Loop.Stop.{Turns, run-stops}
use cloud_commander.Tests.Fixtures.{
  Fraction, Json, fractions, fractions-IsOrdered, json_codec, toy_hasher,
}
use cloud_commander.Api.Projections.{get_node}
use cloud_commander.Worker.Projection.Current.{shown, get_node-replay}
use cloud_commander.Tests.Log.{first, second, two_events, two_events-read}
use cloud_commander.Errors.{◌>>=◌}
use cloud_commander.Domain.Reducers.{replay}
use cloud_commander.Infrastructure.Repository.{find_node}
use cloud_commander.Worker.Projection.{project_all, stored}
use cloud_commander.Tests.Worker.{toy_texts, worker, alone}

classify_instability-highest_example :
    let s = classify_instability {F = Fraction} (5, 1) in
    Within fractions-IsOrdered (0, 0) (1, 0) (s.membership drifting)
    × (s.degree ≡ s.membership s.label)
    × (fractions.le (s.membership drifting) s.degree ≡ true)
classify_instability-highest_example =
    classify_instability-highest fractions-IsOrdered (5, 1) drifting

abbrev own : OutboxRow
own = claim_row 300 (outbox_row 100 101 1)

abbrev claimed_own : Db Fraction Json
claimed_own = record two_events { outbox = own ∷ [] }

mark_failed-late_example :
    let late = failed_row 1 (codes "late") (processed_row 400 (codes "completed") own) in
    In late
      (mark_failed 101 1
        (codes "late")
        (mark_processed 400 101 (codes "completed") claimed_own)).outbox
    × (late.status ≡ failed)
    × (due 40000000 late ≡ true)
mark_failed-late_example =
    mark_failed-late 101 1 400 40000000 300 (codes "completed") (codes "late") own claimed_own
      (inl refl) refl (omega arith) refl (omega arith)

-- The event is set at its second test.
abbrev stopped : ℕ → Bool
stopped k = leb 1 k

abbrev rounds : ℕ → Round Fraction Json
rounds k = record { failure = none; locked = λ r. false; now = 300; at = alone }

abbrev start : Db Fraction Json × WorkerState Fraction (MockAwsAdapter Fraction)
start = (two_events, worker)

run-stops_example :
    (t : Db Fraction Json × WorkerState Fraction (MockAwsAdapter Fraction)) × (slept : ℕ) × Turns
      Fraction Json
      (MockAwsAdapter Fraction)
      rounds
      0
      1
      start
      t
      slept
    × (run stopped rounds 5 start ≡ some (t, slept))
run-stops_example = run-stops rounds stopped 1 5 start (omega arith) (refl, refl)

get_node-replay_example :
    (project_all (first ∷ second ∷ []) two_events >>= λ d. get_node 7 1 d)
    ≡ (replay none (first ∷ second ∷ []) >>= shown)
unfolding stored find_node
get_node-replay_example =
    get_node-replay fractions-IsOrdered 1 7 two_events two_events (first ∷ second ∷ [])
      two_events-read refl
