-- ===== src/System/Once.antt =====
-- What has been accepted or read once, and what runs make of it later.
use cloud_commander.Prelude.{
  ◌≡◌, refl, sym, ap, ◌∙◌, inl, inr, false, ◌&&◌, some, List, [], ◌∷◌, ◌++◌, arith, ◌==◌,
  Bool-cases, Option-cases, In, All-In, In-behind,
}
use mathlib.Core.Path.{subst}
use cloud_commander.Text.{Text}
use cloud_commander.Uuid.{Uuid}
use cloud_commander.Float.{Float}
use cloud_commander.Errors.{ok, err, Exc, Result-cases}
use cloud_commander.Security.HashChain.{Hasher}
use cloud_commander.Domain.Schemas.{EventEnvelope, build, check_envelope}
use cloud_commander.Infrastructure.Database.{EventRow, Db}
use cloud_commander.Infrastructure.Database.Laws.{Inserts, Unique, Differ}
use cloud_commander.Infrastructure.Repository.{Codec, event_row, find_event, get_event_by_id}
use cloud_commander.Infrastructure.Repository.Append.{IsWellFormed, next_row, appended}
use cloud_commander.Infrastructure.Repository.Invariant.{append_outcome, appended-IsWellFormed}
use cloud_commander.Infrastructure.Adapters.{CloudAdapter}
use cloud_commander.Api.Commands.{Moment, Uuid3, validate, validate_and_append, submit}
use cloud_commander.Worker.Followups.Laws.{build-ok}
use cloud_commander.Worker.Followups.Once.{key_taken}
use cloud_commander.Worker.Records.{LibraryTexts}
use cloud_commander.System.{Run}
use cloud_commander.System.Grows.{Run-Advances, Run-IsWellFormed}

module _ {J : Type 0} where
  find_event-found :
      (event tenant : Uuid) (rows : List (EventRow J)) (r : EventRow J)
      → find_event event tenant rows ≡ some r
      → In r rows × (r.event_id ≡ event)
  unfolding find_event
  find_event-found event tenant [] r h = cc
  find_event-found event tenant (q ∷ rows) r h =
      elim (Bool-cases (q.event_id == event && q.tenant_id == tenant)) [
        | inl e ↦
            let same : q ≡ r = cc (rw (e, find_event) at h) in rw (← same) (inl refl, ground arith)
        | inr e ↦
            let (i, own) = find_event-found event tenant rows r (rw (e, find_event) at h) in
            (inr i, own)
      ]

  -- No new row hides an old one.
  find_event-behind :
      (event tenant : Uuid) (more rows : List (EventRow J)) (r : EventRow J)
      → Unique (more ++ rows)
      → find_event event tenant rows ≡ some r
      → find_event event tenant (more ++ rows) ≡ some r
  unfolding find_event
  find_event-behind event tenant [] rows r u h = h
  find_event-behind event tenant (q ∷ more) rows r u h =
      let (i, own) = find_event-found event tenant rows r h in
      let there = In-behind r more rows i in
      let differ = All-In (Differ q) r (more ++ rows) u.0 there in
      let other : (q.event_id == event && q.tenant_id == tenant) ≡ false =
        elim (Bool-cases (q.event_id == event && q.tenant_id == tenant)) [
          | inr e ↦ e
          | inl e ↦ absurd (differ.ids (ground arith))
        ] in
      rw (other, find_event) (find_event-behind event tenant more rows r u.1 h)

module _ {F J : Type 0} ⦃float : Float F⦄ ⦃hasher : Hasher J⦄ ⦃codec : Codec F J⦄ where
  submit-ok :
      (m : Moment) (e : EventEnvelope F J) (tenant : Uuid) (others : Db F J → Db F J)
      (db db' : Db F J) (a : Text)
      → IsWellFormed (others db)
      → submit m e tenant others db ≡ (ok a, db')
      → Inserts (next_row e (others db)) (others db).events × (db' ≡ appended m.now e (others db))
  unfolding submit validate_and_append
  submit-ok m e tenant others db db' a w h = elim (Result-cases (build check_envelope e)) [
    | inr (x, b) ↦ cc (rw (b, submit) at h)
    | inl (e', b) ↦
        let built : build check_envelope e ≡ ok e = b ∙ ap ok (build-ok check_envelope e e' b) in
        elim (Result-cases (validate e tenant db)) [
          | inr (x, v) ↦ cc (rw (built, v, submit, validate_and_append) at h)
          | inl (u, v) ↦ elim (append_outcome m.now e (others db) w) [
            | inr (x, failed, undone) ↦ cc (rw (built, v, undone, submit, validate_and_append) at h)
            | inl (inserts, done) ↦
                let k = rw (built, v, done, submit, validate_and_append) at h in (inserts, cc (k))
          ]
        ]
  ]

module _ {F J A : Type 0} ⦃float : Float F⦄ ⦃hasher : Hasher J⦄ ⦃codec : Codec F J⦄
    ⦃adapters : CloudAdapter F A⦄ ⦃texts : LibraryTexts⦄ ⦃names : Uuid3⦄ where
  -- An event that has been read from a well-formed log by its id and its tenant is read from it
  -- ever after, with every field as it was, whatever clients and workers commit.
  pub get_event_by_id-Run :
      {s d : Db F J} (event tenant : Uuid) (e : EventEnvelope F J)
      → IsWellFormed s
      → Run F J A s d
      → get_event_by_id event tenant s ≡ ok (some e)
      → get_event_by_id event tenant d ≡ ok (some e)
  unfolding get_event_by_id
  get_event_by_id-Run {s} {d} event tenant e w r h =
      elim (Option-cases (find_event event tenant s.events)) [
        | inl n ↦ cc (rw (n, get_event_by_id) at h)
        | inr (row, found) ↦
            let (more, grown) = (Run-Advances r).events in
            let unique = subst Unique grown (Run-IsWellFormed r w).unique in
            let still : find_event event tenant d.events ≡ some row =
              rw grown (find_event-behind event tenant more s.events row unique found) in
            rw (still, get_event_by_id) (rw (found, get_event_by_id) at h)
      ]

  -- Once a command has been accepted on a well-formed log, a command of the same tenant under the
  -- same idempotency key is never accepted again, whatever clients and workers commit before it is
  -- submitted and between its validation and its append.
  pub submit-once :
      {later : Db F J} (m m' : Moment) (e e' : EventEnvelope F J) (tenant tenant' : Uuid)
      (others others' : Db F J → Db F J) (db db' : Db F J) (a : Text)
      → IsWellFormed (others db)
      → submit m e tenant others db ≡ (ok a, db')
      → Run F J A db' later
      → Run F J A later (others' later)
      → e'.tenant_id ≡ e.tenant_id
      → e'.idempotency_key ≡ e.idempotency_key
      → (x : Exc) × ((submit m' e' tenant' others' later).0 ≡ err x)
  unfolding event_row
  submit-once {later} m m' e e' tenant tenant' others others' db db' a w h r o t k =
      elim (Result-cases (submit m' e' tenant' others' later).0) [
        | inr (x, refused) ↦ (x, refused)
        | inl (b, accepted) ↦
            let (first, same) = submit-ok m e tenant others db db' a w h in
            let made =
              subst IsWellFormed (sym same) (appended-IsWellFormed m.now e (others db) w first) in
            let there : In (next_row e (others db)) db'.events = rw same (inl refl) in
            let (more, grown) = (Run-Advances r).events in
            let (more', grown') = (Run-Advances o).events in
            let still : In (next_row e (others db)) later.events =
              rw grown (In-behind (next_row e (others db)) more db'.events there) in
            let yet : In (next_row e (others db)) (others' later).events =
              rw grown' (In-behind (next_row e (others db)) more' later.events still) in
            let second =
              submit-ok m' e' tenant' others' later (submit m' e' tenant' others' later).1 b
                (Run-IsWellFormed o (Run-IsWellFormed r made))
                (ap (λ c. (c, (submit m' e' tenant' others' later).1)) accepted) in
            absurd (
              key_taken (next_row e' (others' later)) (next_row e (others db))
                (others' later).events second.0 yet (sym t) (sym k))
      ]
