-- ===== src/Worker/Outbox/Stale.antt =====
-- A worker that outlives its lease.
use cloud_commander.Prelude.{
  ℕ, ◌+◌, ◌*◌, ◌^◌, ◌<◌, ◌≡◌, refl, sym, ap, ◌∙◌, inl, inr, true, false, some, List, [], ◌∷◌, arith,
  leb, ◌==◌, ==_iff, In,
}
use cloud_commander.Text.{Text}
use cloud_commander.Uuid.{Uuid}
use cloud_commander.Infrastructure.Database.{OutboxRow, failed, Db}
use cloud_commander.Worker.Outbox.{
  due, update_rows, failed_row, processed_row, mark_processed, mark_failed,
}

update_rows-In :
    (event : Uuid) (f : OutboxRow → OutboxRow) (r : OutboxRow) (rows : List OutboxRow)
    → r.event_id ≡ event
    → In r rows
    → In (f r) (update_rows event f rows)
unfolding update_rows
update_rows-In event f r [] e i = absurd i
update_rows-In event f r (q ∷ rows) e (inl same) =
    let own : (q.event_id == event) ≡ true =
      (==_iff q.event_id event).1 (sym (ap (λ o. o.event_id) same) ∙ e) in
    rw own (inl (ap f same))
update_rows-In event f r (q ∷ rows) e (inr i) = inr (update_rows-In event f r rows e i)

module _ {F J : Type 0} where
  -- A worker that outlived its lease and reports a failure turns an entry that another worker has
  -- processed meanwhile back to failed, and it is due again after its backoff, if this was not its
  -- fifth attempt.
  pub mark_failed-late :
      (event : Uuid) (attempts done now last : ℕ) (status message : Text) (r : OutboxRow)
      (db : Db F J)
      → In r db.outbox
      → r.event_id ≡ event
      → attempts < 5
      → r.last_attempt_at ≡ some last
      → last + 2 ^ r.attempts * 15000000 < now
      → let late = failed_row attempts message (processed_row done status r) in
        In late (mark_failed event attempts message (mark_processed done event status db)).outbox
        × (late.status ≡ failed)
        × (due now late ≡ true)
  unfolding mark_failed mark_processed due
  mark_failed-late event attempts done now last status message r db i e few claimed_at waited_for =
      let again : leb 5 attempts ≡ false = ground arith in
      (
        update_rows-In event (failed_row attempts message) (processed_row done status r) _ e
            (update_rows-In event (processed_row done status) r db.outbox e i),
        rw again refl,
        rw (again, claimed_at) (ground arith),
      )
