-- ===== src/Infrastructure/Repository/Stream.antt =====
-- The log as a reader sees it: a list of events, of which a read of a stream is a part.
use cloud_commander.Prelude.{
  ℕ, ◌<◌, ◌≡◌, refl, sym, ap, ◌∙◌, inl, inr, Bool, true, false, ◌&&◌, List, [], ◌∷◌, ◌++◌, arith,
  ltb, leb, ◌==◌, if◌then◌else◌, Bool-cases, All, All-map,
}
use mathlib.Core.List.{append-nil}
use cloud_commander.Uuid.{Uuid}
use cloud_commander.Float.{Float}
use cloud_commander.Errors.{Result, ok, err}
use cloud_commander.Security.HashChain.{Hasher}
use cloud_commander.Domain.Schemas.{EventEnvelope, check_payload, check_envelope}
use cloud_commander.Infrastructure.Database.{EventRow, Db}
use cloud_commander.Infrastructure.Repository.{
  Codec, insert_row, select_events, event_row, verify_row, map_record_to_envelope, get_latest_hash,
  get_events, append_event_and_enqueue,
}
use cloud_commander.Infrastructure.Repository.Append.{IsWellFormed, next_row, appended}
use cloud_commander.Infrastructure.Repository.Invariant.{append_outcome, appended-IsWellFormed}
use cloud_commander.Infrastructure.Repository.Read.{
  ReadsBack, Maps, map_record-fields, get_events-eq-ok,
}
use cloud_commander.Infrastructure.Repository.RoundTrip.{map_record-event_row}
use cloud_commander.Infrastructure.Repository.Select.{Selected, select_events-All}

module _ {F J : Type 0} where
  -- The event is one of the stream, behind the position.
  abbrev pub belongs : Uuid → Uuid → ℕ → EventEnvelope F J → Bool
  belongs tenant agg n e = (e.tenant_id == tenant && e.aggregate_id == agg) && ltb n e.sequence_id

  -- The events of a stream behind a position, in the order in which they were recorded
  unfoldable pub stream : Uuid → Uuid → ℕ → List (EventEnvelope F J) → List (EventEnvelope F J)
  stream tenant agg n [] = []
  stream tenant agg n (e ∷ log) =
      let rest = stream tenant agg n log in if belongs tenant agg n e then e ∷ rest else rest

  -- The abstract append: an event that is accepted is recorded last, one that is refused is not.
  unfoldable pub recorded :
      Result (Unit {0}) → EventEnvelope F J → List (EventEnvelope F J) → List (EventEnvelope F J)
  recorded (ok u) e log = log ++ (e ∷ [])
  recorded (err x) e log = log

  -- The event comes behind the other one, if they are of one stream.
  abbrev pub Above : EventEnvelope F J → EventEnvelope F J → Type 0
  Above e e' =
      e'.tenant_id ≡ e.tenant_id → e'.aggregate_id ≡ e.aggregate_id → e'.sequence_id < e.sequence_id

  module _ (tenant agg : Uuid) (n : ℕ) where
    stream-own :
        (e : EventEnvelope F J) (log : List (EventEnvelope F J))
        → belongs tenant agg n e ≡ true
        → stream tenant agg n (log ++ (e ∷ [])) ≡ stream tenant agg n log ++ (e ∷ [])
    unfolding stream
    stream-own e [] h = rw h refl
    stream-own e (e' ∷ log) h = elim (Bool-cases (belongs tenant agg n e')) [
      | inl b ↦ rw (b, stream) (ap (λ l. e' ∷ l) (stream-own e log h))
      | inr b ↦ rw (b, stream) (stream-own e log h)
    ]

    stream-other :
        (e : EventEnvelope F J) (log : List (EventEnvelope F J))
        → belongs tenant agg n e ≡ false
        → stream tenant agg n (log ++ (e ∷ [])) ≡ stream tenant agg n log
    unfolding stream
    stream-other e [] h = rw h refl
    stream-other e (e' ∷ log) h = elim (Bool-cases (belongs tenant agg n e')) [
      | inl b ↦ rw (b, stream) (ap (λ l. e' ∷ l) (stream-other e log h))
      | inr b ↦ rw (b, stream) (stream-other e log h)
    ]

    stream-All :
        (P : EventEnvelope F J → Type 0) (log : List (EventEnvelope F J))
        → All (λ e. belongs tenant agg n e ≡ true → P e) log
        → All P (stream tenant agg n log)
    unfolding stream
    stream-All P [] h = tt
    stream-All P (e ∷ log) h = elim (Bool-cases (belongs tenant agg n e)) [
      | inl b ↦ rw (b, stream) (h.0 b, stream-All P log h.1)
      | inr b ↦ rw (b, stream) (stream-All P log h.1)
    ]

    stream-below :
        (e : EventEnvelope F J) (log : List (EventEnvelope F J))
        → belongs tenant agg n e ≡ true
        → All (Above e) log
        → All (λ e'. e'.sequence_id < e.sequence_id) (stream tenant agg n log)
    stream-below e log h above =
        stream-All (λ e'. e'.sequence_id < e.sequence_id) log
          (All-map (Above e) (λ e'. belongs tenant agg n e' ≡ true → e'.sequence_id < e.sequence_id)
            (λ e' a b. a (ground (arith, h, b)) (ground (arith, h, b))) log above)

module _ {F J : Type 0} ⦃float : Float F⦄ ⦃codec : Codec F J⦄ where
  -- A row goes to the place of its sequence number, and its event with it.
  Maps-insert :
      (r : EventRow J) (e : EventEnvelope F J) (rows : List (EventRow J))
      (before behind : List (EventEnvelope F J))
      → Maps rows (before ++ behind)
      → All (λ x. x.sequence_id < r.sequence_id) before
      → All (λ x. r.sequence_id < x.sequence_id) behind
      → map_record_to_envelope r ≡ ok e
      → Maps (insert_row r rows) (before ++ (e ∷ behind))
  unfolding insert_row
  Maps-insert r e [] [] [] maps lo hi h = (h, tt)
  Maps-insert r e [] [] (x ∷ behind) maps lo hi h = absurd maps
  Maps-insert r e [] (x ∷ before) behind maps lo hi h = absurd maps
  Maps-insert r e (q ∷ rows) [] [] maps lo hi h = absurd maps
  Maps-insert r e (q ∷ rows) [] (x ∷ behind) maps lo hi h =
      let same = (map_record-fields q x maps.0).2 in
      let first : leb r.sequence_id q.sequence_id ≡ true = ground (arith, same, hi.0) in
      rw (first, insert_row) (h, maps)
  Maps-insert r e (q ∷ rows) (x ∷ before) behind maps lo hi h =
      let same = (map_record-fields q x maps.0).2 in
      let later : leb r.sequence_id q.sequence_id ≡ false = ground (arith, same, lo.0) in
      rw (later, insert_row) (maps.0, Maps-insert r e rows before behind maps.1 lo.1 hi h)

abbrev Verifies : {J : Type 0} ⦃hasher : Hasher J⦄ → EventRow J → Type 0
Verifies r = verify_row r ≡ ok tt

-- Every read of the database is the read of the list.
abbrev pub Represents :
    {F J : Type 0} ⦃float : Float F⦄ ⦃hasher : Hasher J⦄ ⦃codec : Codec F J⦄
    → Db F J
    → List (EventEnvelope F J)
    → Type 0
Represents db log =
    (tenant agg : Uuid) (n : ℕ) → get_events tenant agg n db ≡ ok (stream tenant agg n log)

module _ {F J : Type 0} ⦃float : Float F⦄ ⦃hasher : Hasher J⦄ ⦃codec : Codec F J⦄ where
  -- An append to a stream puts the event at the place of its sequence number.
  pub get_events-own :
      (now : ℕ) (e : EventEnvelope F J) (db : Db F J) (before behind : List (EventEnvelope F J))
      (tenant agg : Uuid) (n : ℕ)
      → IsWellFormed (appended now e db)
      → map_record_to_envelope (next_row e db) ≡ ok e
      → belongs tenant agg n e ≡ true
      → All (λ x. x.sequence_id < e.sequence_id) before
      → All (λ x. e.sequence_id < x.sequence_id) behind
      → get_events tenant agg n db ≡ ok (before ++ behind)
      → get_events tenant agg n (appended now e db) ≡ ok (before ++ (e ∷ behind))
  unfolding select_events event_row
  get_events-own now e db before behind tenant agg n w back own lo hi h =
      let maps = ((get_events-eq-ok tenant agg n db (before ++ behind)).0 h).1 in
      let rows = select_events tenant agg n db.events in
      let chosen : select_events tenant agg n (next_row e db ∷ db.events)
          ≡ insert_row (next_row e db) rows =
        rw (own, select_events) refl in
      let verified = select_events-All tenant agg n (Verifies {J = J}) (next_row e db ∷ db.events) (
        All-map (Verifies {J = J}) (λ r. Selected tenant agg n r → Verifies r) (λ r v s. v)
          (next_row e db ∷ db.events) w.verified) in
      (get_events-eq-ok tenant agg n (appended now e db) (before ++ (e ∷ behind))).1
        (verified, rw chosen (Maps-insert (next_row e db) e rows before behind maps lo hi back))

  get_events-other :
      (now : ℕ) (e : EventEnvelope F J) (db : Db F J) (tenant agg : Uuid) (n : ℕ)
      → belongs tenant agg n e ≡ false
      → get_events tenant agg n (appended now e db) ≡ get_events tenant agg n db
  unfolding get_events select_events event_row
  get_events-other now e db tenant agg n other = rw (other, select_events) refl

module _ {F J : Type 0} ⦃float : Float F⦄ ⦃hasher : Hasher J⦄ ⦃codec : Codec F J⦄
    (laws : ReadsBack F J) where
  -- The log implements a list of events: if every read of a well-formed log, of any stream behind
  -- any position, gives the events of the list that belong there, in their order, then after the
  -- append of a valid event it does so for the list with the event added at its end if the append
  -- returned, and for the same list if it raised, where the sequence number of the event is above
  -- those of its stream and pydantic reads back the payloads that it wrote.
  pub append-Represents :
      (now : ℕ) (e : EventEnvelope F J) (db : Db F J) (log : List (EventEnvelope F J))
      → IsWellFormed db
      → check_payload e.payload ≡ true
      → check_envelope e ≡ true
      → All (Above e) log
      → Represents db log
      → let (answer, db') = append_event_and_enqueue now e db in
        Represents db' (recorded answer e log)
  unfolding recorded
  append-Represents now e db log w hp he above h = elim (append_outcome now e db w) [
    | inr (x, failed, same) ↦ rw same h
    | inl (inserts, same) ↦ rw same (λ tenant agg n. elim (Bool-cases (belongs tenant agg n e)) [
      | inl own ↦
          let back =
            map_record-event_row laws e (get_latest_hash e.tenant_id e.aggregate_id db) hp he in
          get_events-own now e db (stream tenant agg n log) [] tenant agg n
            (appended-IsWellFormed now e db w inserts) back own
            (stream-below tenant agg n e log own above) tt
            (h tenant agg n ∙ ap ok (sym (append-nil (stream tenant agg n log))))
          ∙ ap ok (sym (stream-own tenant agg n e log own))
      | inr other ↦
          get_events-other now e db tenant agg n other
          ∙ h tenant agg n
          ∙ ap ok (sym (stream-other tenant agg n e log other))
    ])
  ]
