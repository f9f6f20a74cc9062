-- ===== src/System/Shown.antt =====
-- From an accepted command to the answer of the node route.
use cloud_commander.Prelude.{
  ℕ, ◌<◌, ◌≡◌, refl, sym, ap, ◌∙◌, Bool, true, none, some, List, [], ◌∷◌, ◌++◌,
}
use mathlib.Core.Path.{subst}
use mathlib.Core.Option
use cloud_commander.Text.{Text}
use cloud_commander.Float.{Float}
use cloud_commander.Errors.{ok}
use cloud_commander.Security.HashChain.{Hasher}
use cloud_commander.Domain.Schemas.{
  EventEnvelope, ResourceNodeSnapshot, check_payload, check_envelope,
}
use cloud_commander.Domain.Reducers.{reduce_node, replay}
use cloud_commander.Domain.Replay.Parts.{position}
use cloud_commander.Uuid.{Uuid}
use cloud_commander.Infrastructure.Database.{Db, OutboxRow}
use cloud_commander.Infrastructure.Database.Laws.{transaction_commits}
use cloud_commander.Infrastructure.Repository.{Codec, find_node, get_events, get_event_by_id}
use cloud_commander.Infrastructure.Repository.Append.{IsWellFormed}
use cloud_commander.Infrastructure.Repository.Invariant.{
  append_accepted, appended-IsWellFormed, commit_ok_lem,
}
use cloud_commander.Infrastructure.Repository.Read.{ReadsBack}
use cloud_commander.Infrastructure.Repository.RoundTrip.{get_event_by_id-append}
use cloud_commander.Infrastructure.Adapters.{CloudAdapter}
use cloud_commander.Api.Commands.{validate_and_append}
use cloud_commander.Api.Commands.Accepted.{appends, accepted_replays}
use cloud_commander.Api.Projections.{get_node}
use cloud_commander.Worker.Guardrail.{observe_guardrail_state}
use cloud_commander.Worker.Outbox.{claim_batch, mark_processed}
use cloud_commander.Worker.Outbox.Settled.{queue-IsWellFormed}
use cloud_commander.Worker.Processing.{should_apply_projection, extract_compensation_strategy}
use cloud_commander.Worker.Records.{
  LibraryTexts, WorkerState, Clock, Prepared, finish, settle, settle_or_fail, apply_projection,
  apply_alert, evaluate_reconcile, next_projection, compute_next_projection_state, prepare,
  process_record,
}
use cloud_commander.Worker.Records.Atomic.{read_found}
use cloud_commander.Worker.Records.Settles.{
  apply_projection-IsWellFormed, apply_alert-IsWellFormed, finish-IsWellFormed,
}
use cloud_commander.Worker.Records.Writes.{apply_alert-nodes}
use cloud_commander.Worker.Projection.{
  stored, IsSound, compute_next_projection_state-reduce, stored-apply_projection,
}
use cloud_commander.Worker.Projection.Current.{shown, get_node-shown}

-- The intent of the event has an outcome that is projected and asks for no follow-ups.
pub record Completes {F A J : Type 0} ⦃float : Float F⦄ ⦃adapters : CloudAdapter F A⦄
    ⦃texts : LibraryTexts⦄ (e : EventEnvelope F J) (worker : WorkerState F A) : Type 0 where
  pub status : Text
  pub answer : (evaluate_reconcile e worker.reconciler).0 ≡ (status, none)
  pub projected : should_apply_projection status none ≡ true
  pub no_strategy : extract_compensation_strategy status ≡ none

module _ {F J : Type 0} ⦃float : Float F⦄ ⦃hasher : Hasher J⦄ ⦃codec : Codec F J⦄
    ⦃texts : LibraryTexts⦄ where
  -- A transaction of the worker without an error and without follow-ups commits.
  settles :
      (clock : Clock F) (row : OutboxRow) (p : Prepared F J) (d : Db F J)
      → IsWellFormed d
      → p.error ≡ none
      → extract_compensation_strategy p.status ≡ none
      → (settle_or_fail clock row (ok p) d).nodes
        ≡ (apply_projection row.tenant_id p.next_state d).nodes
  unfolding settle_or_fail settle finish mark_processed
  settles clock row p d w fine quiet =
      let should = should_apply_projection p.status p.error in
      let projected = apply_projection row.tenant_id p.next_state d in
      let mid = apply_alert row.tenant_id should p.guardrail_state projected in
      let last = mark_processed clock.transaction_now row.event_id p.status mid in
      let started =
        apply_alert-IsWellFormed row.tenant_id should p.guardrail_state projected
          (apply_projection-IsWellFormed row.tenant_id p.next_state d w) in
      let done : finish clock row p none none mid ≡ ok (tt, last) = refl in
      let kept = finish-IsWellFormed clock row p none none mid last started done in
      let body : settle clock row p d ≡ ok (tt, last) = rw (fine, quiet, settle) refl in
      let commits = transaction_commits (settle clock row p) d last tt body (commit_ok_lem kept) in
      rw commits (apply_alert-nodes row.tenant_id should p.guardrail_state projected)

module _ {F J : Type 0} ⦃float : Float F⦄ ⦃hasher : Hasher J⦄ ⦃codec : Codec F J⦄ where
  -- A claim leaves the events and the read model alone.
  claim_same :
      (size : ℕ) (locked : OutboxRow → Bool) (now : ℕ) (d : Db F J) (event tenant node : Uuid)
      → let d' = (claim_batch size locked now d).1 in
        (get_event_by_id event tenant d' ≡ get_event_by_id event tenant d)
        × (stored tenant node d' ≡ stored tenant node d)
  unfolding claim_batch get_event_by_id stored
  claim_same size locked now d event tenant node = (refl, refl)

module _ {F J A : Type 0} ⦃float : Float F⦄ ⦃hasher : Hasher J⦄ ⦃codec : Codec F J⦄
    ⦃adapters : CloudAdapter F A⦄ ⦃texts : LibraryTexts⦄ where
  -- What the worker has prepared for the event
  abbrev ready :
      Clock F
      → (e : EventEnvelope F J) (worker : WorkerState F A) → Completes e worker
      → ResourceNodeSnapshot F
      → Prepared F J
  ready clock e worker c s = record {
    event = e;
    guardrail_state =
        (observe_guardrail_state clock.pid_time clock.alert_ms e worker.pid_controller).0;
    status = c.status;
    error = none;
    next_state = some s;
  }

  prepares :
      (clock : Clock F) (e : EventEnvelope F J) (d : Db F J) (worker : WorkerState F A)
      (s : ResourceNodeSnapshot F) (c : Completes e worker)
      → compute_next_projection_state e d ≡ ok s
      → (prepare clock e d worker).0 ≡ ok (ready clock e worker c s)
  unfolding prepare next_projection
  prepares clock e d worker s c h =
      rw (c.answer, prepare) (rw (c.projected, h, next_projection) refl)

  processes :
      (clock : Clock F) (row : OutboxRow) (e : EventEnvelope F J) (d : Db F J)
      (worker : WorkerState F A) (s : ResourceNodeSnapshot F)
      → IsWellFormed d
      → get_event_by_id row.event_id row.tenant_id d ≡ ok (some e)
      → Completes e worker
      → compute_next_projection_state e d ≡ ok s
      → (process_record clock row (λ x. x) d worker).0.nodes
        ≡ (apply_projection row.tenant_id (some s) d).nodes
  unfolding process_record
  processes clock row e d worker s w found c h =
      rw (read_found clock row.event_id row.tenant_id e d worker found) (
        rw (prepares clock e d worker s c h)
          (settles clock row (ready clock e worker c s) d w refl c.no_strategy))

  -- From the command to the read route: if a valid command is accepted on a well-formed log whose
  -- stream replays to what the read model has of the node, with a sequence number behind it, and a
  -- worker claims entries and processes one of its event, and its intent has an outcome that is
  -- projected without follow-ups, then the node route answers the state that the replay of the
  -- stream with the new event gives, if nobody else commits in between, what is stored of the node
  -- passes its schema and pydantic reads back the payloads that it wrote.
  pub command_shown :
      (laws : ReadsBack F J) (now later size : ℕ) (locked : OutboxRow → Bool) (clock : Clock F)
      (row : OutboxRow) (worker : WorkerState F A) (e : EventEnvelope F J) (db db' : Db F J)
      (es : List (EventEnvelope F J))
      → IsWellFormed db
      → check_payload e.payload ≡ true
      → check_envelope e ≡ true
      → get_events e.tenant_id e.aggregate_id 0 db ≡ ok es
      → replay none es ≡ ok (stored e.tenant_id e.aggregate_id db)
      → IsSound (stored e.tenant_id e.aggregate_id db)
      → position (stored e.tenant_id e.aggregate_id db) < e.sequence_id
      → validate_and_append now e e.tenant_id (λ d. d) db ≡ (ok tt, db')
      → row.event_id ≡ e.event_id
      → row.tenant_id ≡ e.tenant_id
      → Completes e worker
      → let claimed = (claim_batch size locked later db').1 in
        let done = (process_record clock row (λ d. d) claimed worker).0 in
        (s : ResourceNodeSnapshot F) × (replay none (es ++ (e ∷ [])) ≡ ok (some s))
        × (get_node e.aggregate_id e.tenant_id done ≡ ok s)
  unfolding stored shown
  command_shown laws now later size locked clock row worker e db db' es w hp he read replayed sound
        newer h own own' c =
      let tenant = e.tenant_id in
      let node = e.aggregate_id in
      let (valid, inserts, made) = appends now e tenant (λ d. d) db db' w h in
      let (s, step, grown, again) =
        accepted_replays laws now e (λ d. d) db db' es (stored tenant node db) w hp he read read
          replayed newer h in
      let w' : IsWellFormed db' =
        subst IsWellFormed (sym made) (appended-IsWellFormed now e db w inserts) in
      let claimed = (claim_batch size locked later db').1 in
      let there =
        get_event_by_id-append laws now e db db' w hp he
          (append_accepted now e db w inserts ∙ ap (λ d. (ok tt, d)) (sym made)) in
      let (event, rows) = claim_same size locked later db' e.event_id tenant node in
      let found : get_event_by_id row.event_id row.tenant_id claimed ≡ ok (some e) =
        rw (own, own') (event ∙ there) in
      let same : stored tenant node claimed ≡ stored tenant node db = rows ∙ rw made refl in
      let reduced : reduce_node (stored tenant node claimed) e ≡ ok s =
        ap (λ o. reduce_node o e) same ∙ step in
      let computed =
        compute_next_projection_state-reduce tenant node e claimed (refl, refl, hp)
          (subst IsSound (sym same) sound)
        ∙ reduced in
      let nodes =
        processes clock row e claimed worker s ((queue-IsWellFormed db' w').0 size locked later)
          found c computed in
      let written : stored tenant node (process_record clock row (λ d. d) claimed worker).0
          ≡ some s =
        ap (λ ns. Option.map (λ r. r.snapshot) (find_node tenant node ns))
          (nodes ∙ ap (λ t. (apply_projection t (some s) claimed).nodes) own')
        ∙ stored-apply_projection tenant node e s claimed refl reduced in
      (s, again, get_node-shown tenant node _ ∙ ap shown written)
