-- ===== src/Worker/Followups/Once.antt =====
-- Follow-ups of one event are emitted once.
use cloud_commander.Prelude.{
  ℕ, ◌≡◌, refl, sym, ap, ◌∙◌, inl, inr, true, false, List, ◌++◌, arith, In, All-In, In-behind,
}
use cloud_commander.Text.{Text, text_eq}
use cloud_commander.Text.Laws.{text_eq_refl}
use cloud_commander.Float.{Float}
use cloud_commander.Errors.{ok, err, Exc, >>=-eq-ok, Result-cases}
use cloud_commander.Security.HashChain.{Hasher}
use cloud_commander.Domain.Schemas.{EventEnvelope, check_envelope, build}
use cloud_commander.Infrastructure.Database.{EventRow, Db, same_key}
use cloud_commander.Infrastructure.Database.Laws.{Inserts, any-false}
use cloud_commander.Infrastructure.Repository.{Codec, append_with_conn, event_row}
use cloud_commander.Infrastructure.Repository.Append.{next_row, append_with_conn-eq-ok}
use cloud_commander.Worker.Followups.{Draw, compensation_event, emit_compensation_followups}
use cloud_commander.Worker.Followups.Laws.{base_of, build-ok, emit_compensation_followups-appended}

module _ {J : Type 0} where
  -- A key of the tenant that a row has is no new key.
  pub key_taken :
      (row r : EventRow J) (rows : List (EventRow J))
      → Inserts row rows
      → In r rows
      → r.tenant_id ≡ row.tenant_id
      → r.idempotency_key ≡ row.idempotency_key
      → ⊥
  key_taken row r rows inserts i tenant key =
      let different =
        All-In (λ q. same_key row q ≡ false) r rows (any-false (same_key row) rows inserts.new_key)
          i in
      let same_text : text_eq r.idempotency_key row.idempotency_key ≡ true =
        rw key (text_eq_refl row.idempotency_key) in
      ground (arith, different, same_text)

module _ {F J : Type 0} ⦃float : Float F⦄ ⦃hasher : Hasher J⦄ ⦃codec : Codec F J⦄ where
  -- Where follow-ups are emitted, the row of the compensation passes the constraints.
  compensation-Inserts :
      (now : ℕ) (d : Draw) (source : EventEnvelope F J) (strategy : Text) (db : Db F J)
      (a : Unit {0} × Db F J)
      → emit_compensation_followups now d source strategy db ≡ ok a
      → Inserts (next_row (compensation_event d source strategy (base_of source db)) db) db.events
  unfolding emit_compensation_followups
  compensation-Inserts now d source strategy db a h =
      let event = compensation_event d source strategy (base_of source db) in
      let (c, built, h₁) = >>=-eq-ok (build check_envelope event) _ h in
      let (first, done, h₂) = >>=-eq-ok (append_with_conn now c db) _ h₁ in
      let same : c ≡ event = build-ok check_envelope event c built in
      ((append_with_conn-eq-ok now event db first.1).0
        (ap (λ e. append_with_conn now e db) (sym same) ∙ done)).0

  -- Once follow-ups of an event have been emitted, emitting them again raises, with any ids, times
  -- and strategy, in every later log that still holds them.
  pub emit_compensation_followups-once :
      (now now' : ℕ) (d d' : Draw) (source : EventEnvelope F J) (strategy strategy' : Text)
      (db db' later : Db F J) (more : List (EventRow J))
      → emit_compensation_followups now d source strategy db ≡ ok (tt, db')
      → later.events ≡ more ++ db'.events
      → (x : Exc) × (emit_compensation_followups now' d' source strategy' later ≡ err x)
  unfolding event_row compensation_event
  emit_compensation_followups-once now now' d d' source strategy strategy' db db' later more h
        grown =
      elim (Result-cases (emit_compensation_followups now' d' source strategy' later)) [
        | inr (x, e) ↦ (x, e)
        | inl (a, e) ↦
            let event = compensation_event d source strategy (base_of source db) in
            let again = compensation_event d' source strategy' (base_of source later) in
            let first = emit_compensation_followups-appended now d source strategy db db' h in
            let there : In (next_row event db) db'.events = rw first (inr (inl refl)) in
            let still : In (next_row event db) later.events =
              rw grown (In-behind (next_row event db) more db'.events there) in
            absurd (
              key_taken (next_row again later) (next_row event db) later.events
                (compensation-Inserts now' d' source strategy' later a e) still refl refl)
      ]
