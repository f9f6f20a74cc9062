-- ===== src/Tests/Queue.antt =====
-- The outbox of a log with two events.
use cloud_commander.Prelude.{
  ◌+◌, ◌*◌, ◌≤◌, ◌<◌, ◌≡◌, refl, ◌≢◌, ◌↔◌, ◌⊎◌, inl, Bool, true, false, [], ◌∷◌, arith, length, In,
}
use cloud_commander.Text.{codes}
use cloud_commander.Uuid.{Uuid}
use cloud_commander.Infrastructure.Database.{any}
use cloud_commander.Tests.Fixtures.{fractions, json_codec, toy_hasher}
use cloud_commander.Infrastructure.Database.{OutboxRow}
use cloud_commander.Infrastructure.Repository.Append.{outbox_row}
use cloud_commander.Worker.Outbox.{due, claimed, claim_row, claim_batch, failed_row}
use cloud_commander.Worker.Outbox.Claim.{Free, claimed_lem}
use cloud_commander.Worker.Outbox.Lease.{claim_batch_exclusive}
use cloud_commander.Worker.Outbox.Settled.{retry_backoff}
use cloud_commander.Tests.Log.{two_events}

abbrev free : OutboxRow → Bool
free r = false

abbrev claimed_first : OutboxRow
claimed_first = claim_row 300 (outbox_row 100 101 1)

abbrev claimed_second : OutboxRow
claimed_second = claim_row 300 (outbox_row 200 102 1)

claimed-first : claimed 1 free 300 two_events.outbox ≡ 101 ∷ []
unfolding claimed due
claimed-first = refl

claimed_example :
    let ids = claimed 1 free 300 two_events.outbox in
    (length ids ≤ 1)
    × ((id : Uuid)
        → In id ids
        → (r : OutboxRow) × (In r two_events.outbox × Free free 300 r) × (id ≡ r.event_id))
    × ((r : OutboxRow)
        → In r two_events.outbox
        → Free free 300 r
        → In r.event_id ids
          ⊎ ((length ids ≡ 1)
              × ((id : Uuid)
                  → In id ids
                  → (q : OutboxRow) × In q two_events.outbox
                    × (id ≡ q.event_id)
                    × (q.created_at ≤ r.created_at))))
claimed_example = claimed_lem 1 free 300 two_events.outbox

claims_first : In claimed_first (claim_batch 1 free 300 two_events).0
unfolding claim_batch due any
claims_first = inl refl

then_second :
    In
      (claim_row 400 (outbox_row 200 102 1))
      (claim_batch 1 free 400 (claim_batch 1 free 300 two_events).1).0
unfolding claim_batch due any
then_second = inl refl

claim_batch_exclusive_example : claimed_first.event_id ≢ claimed_second.event_id
claim_batch_exclusive_example =
    claim_batch_exclusive 1 1 free free 300 400 two_events claimed_first
      (claim_row 400 (outbox_row 200 102 1)) (omega arith) claims_first then_second

retry_backoff_example :
    (due 40000000 (failed_row 1 (codes "throttled") claimed_first) ≡ true)
    ↔ ((1 < 5) × (300 + 2 * 15000000 < 40000000))
retry_backoff_example = retry_backoff 300 40000000 (codes "throttled") (outbox_row 100 101 1)
