-- ===== src/Worker/Followups/Laws.antt =====
-- What the follow-ups do to the log.
use cloud_commander.Prelude.{ℕ, max, ◌≡◌, sym, ap, ◌∙◌, Bool, arith}
use cloud_commander.Text.{Text}
use cloud_commander.Float.{Float}
use cloud_commander.Errors.{ok, >>=-eq-ok}
use cloud_commander.Security.HashChain.{Hasher}
use cloud_commander.Domain.Schemas.{EventEnvelope, check_rollback, check_envelope, build}
use cloud_commander.Infrastructure.Database.{Db}
use cloud_commander.Infrastructure.Repository.{Codec, get_stream_head, append_with_conn}
use cloud_commander.Infrastructure.Repository.Append.{
  IsWellFormed, appended, append_with_conn-eq-ok,
}
use cloud_commander.Infrastructure.Repository.Invariant.{appended-IsWellFormed}
use mathlib.Core.Path.{subst}
use cloud_commander.Worker.Followups.{
  Draw, compensation_event, rollback_payload, rollback_event, emit_compensation_followups,
}

pub build-ok : {A : Type 0} (check : A → Bool) (a b : A) → build check a ≡ ok b → b ≡ a
build-ok check a b h = ground arith

module _ {F J : Type 0} ⦃float : Float F⦄ ⦃hasher : Hasher J⦄ ⦃codec : Codec F J⦄ where
  -- The version on which the follow-ups build
  abbrev pub base_of : EventEnvelope F J → Db F J → ℕ
  base_of source db =
      max (get_stream_head source.tenant_id source.aggregate_id db).0 source.sequence_id

  append_with_conn-appended :
      (now : ℕ) (e : EventEnvelope F J) (db : Db F J) (a : Unit {0} × Db F J)
      → append_with_conn now e db ≡ ok a
      → (a.1 ≡ appended now e db) × (IsWellFormed db → IsWellFormed a.1)
  append_with_conn-appended now e db (u, db') h =
      let got = (append_with_conn-eq-ok now e db db').0 h in
      (got.1, λ w. subst IsWellFormed (sym got.1) (appended-IsWellFormed now e db w got.0))

  emit_both :
      (now : ℕ) (d : Draw) (source : EventEnvelope F J) (strategy : Text) (db db' : Db F J)
      → emit_compensation_followups now d source strategy db ≡ ok (tt, db')
      → let c = compensation_event d source strategy (base_of source db) in
        let r = rollback_event d source (rollback_payload source strategy) (base_of source db) in
        (db' ≡ appended now r (appended now c db)) × (IsWellFormed db → IsWellFormed db')
  unfolding emit_compensation_followups
  emit_both now d source strategy db db' h =
      let (c, built, h1) =
        >>=-eq-ok (build check_envelope (compensation_event d source strategy (base_of source db)))
          _ h in
      let (first, done, h2) = >>=-eq-ok (append_with_conn now c db) _ h1 in
      let (p, payload, h3) =
        >>=-eq-ok (build check_rollback (rollback_payload source strategy)) _ h2 in
      let (r, rolled, h4) =
        >>=-eq-ok (build check_envelope (rollback_event d source p (base_of source db))) _ h3 in
      let one = append_with_conn-appended now c db first done in
      let two = append_with_conn-appended now r first.1 (tt, db') h4 in
      let same_c : c ≡ compensation_event d source strategy (base_of source db) =
        build-ok check_envelope _ c built in
      let same_p : p ≡ rollback_payload source strategy = build-ok check_rollback _ p payload in
      let same_r : r ≡ rollback_event d source p (base_of source db) =
        build-ok check_envelope _ r rolled in
      (
        two.0
            ∙ ap (appended now r) one.0
            ∙ ap (λ x. appended now x (appended now c db))
                (same_r ∙ ap (λ x. rollback_event d source x (base_of source db)) same_p)
            ∙ ap
                (λ x.
                  appended now
                    (rollback_event d source (rollback_payload source strategy) (base_of source db))
                    (appended now x db))
                same_c,
        λ w. two.1 (one.1 w),
      )

  -- Follow-ups that are emitted add the compensation and the rollback, at the two versions behind
  -- the later of the head of the stream and the source event, each with its outbox entry, and
  -- change nothing else.
  pub emit_compensation_followups-appended :
      (now : ℕ) (d : Draw) (source : EventEnvelope F J) (strategy : Text) (db db' : Db F J)
      → emit_compensation_followups now d source strategy db ≡ ok (tt, db')
      → let c = compensation_event d source strategy (base_of source db) in
        let r = rollback_event d source (rollback_payload source strategy) (base_of source db) in
        db' ≡ appended now r (appended now c db)
  emit_compensation_followups-appended now d source strategy db db' h =
      (emit_both now d source strategy db db' h).0

  pub emit_compensation_followups-IsWellFormed :
      (now : ℕ) (d : Draw) (source : EventEnvelope F J) (strategy : Text) (db db' : Db F J)
      → emit_compensation_followups now d source strategy db ≡ ok (tt, db')
      → IsWellFormed db
      → IsWellFormed db'
  emit_compensation_followups-IsWellFormed now d source strategy db db' h =
      (emit_both now d source strategy db db' h).1
