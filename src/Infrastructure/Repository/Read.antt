-- ===== src/Infrastructure/Repository/Read.antt =====
-- What is read back from the log.
use cloud_commander.Prelude.{
  ℕ, ◌≡◌, refl, ◌↔◌, inl, inr, true, some, List, [], ◌∷◌, arith, Option-cases, All, All-map, In,
}
use cloud_commander.Uuid.{Uuid}
use cloud_commander.Float.{Float}
use cloud_commander.Errors.{ok, >>-eq-ok}
use cloud_commander.Security.HashChain.{Hasher}
use cloud_commander.Domain.Schemas.{EventPayload, EventEnvelope, check_payload}
use cloud_commander.Domain.Replay.{IsAscending}
use cloud_commander.Infrastructure.Database.{EventRow, Db}
use cloud_commander.Infrastructure.Repository.{
  Codec, select_events, verify_row, verify_rows, map_record_to_envelope, map_records, get_events,
}
use cloud_commander.Infrastructure.Repository.Append.{IsWellFormed}
use cloud_commander.Infrastructure.Repository.Select.{
  IsStrictFrom, Selected, select_events-IsStrictFrom, select_events-In, All-select_events,
  select_events-All,
}

-- pydantic reads back what it wrote.
pub record ReadsBack (F J : Type 0) ⦃codec : Codec F J⦄ : Type 0 where
  pub parse-dump : (p : EventPayload F J) → codec.parse (codec.dump p) ≡ some p

-- What `get_events` needs of a row: its hash verifies and its payload is a valid event.
abbrev pub Readable :
    (F : Type 0) {J : Type 0} ⦃float : Float F⦄ ⦃hasher : Hasher J⦄ ⦃codec : Codec F J⦄
    → EventRow J
    → Type 0
Readable F {J} r =
    (verify_row r ≡ ok tt) × ((e : EventEnvelope F J) × (map_record_to_envelope r ≡ ok e))

verify_rows-eq-ok :
    {J : Type 0} ⦃hasher : Hasher J⦄ (rows : List (EventRow J))
    → (verify_rows rows ≡ ok tt) ↔ All (λ r. verify_row r ≡ ok tt) rows
unfolding verify_rows
verify_rows-eq-ok [] = (λ h. tt, λ h. refl)
verify_rows-eq-ok (r ∷ rows) =
    let both = >>-eq-ok (verify_row r) (verify_rows rows) tt in
    let ih = verify_rows-eq-ok rows in
    (λ h. ((both.0 h).0, ih.0 (both.0 h).1), λ a. both.1 (a.0, ih.1 a.1))

module _ {F J : Type 0} ⦃float : Float F⦄ ⦃codec : Codec F J⦄ where
  -- The envelopes are those of the rows, one by one.
  abbrev pub Maps : List (EventRow J) → List (EventEnvelope F J) → Type 0
  Maps [] [] = Unit
  Maps [] (e ∷ es) = ⊥
  Maps (r ∷ rows) [] = ⊥
  Maps (r ∷ rows) (e ∷ es) = (map_record_to_envelope r ≡ ok e) × Maps rows es

  map_records-eq-ok :
      (rows : List (EventRow J)) (es : List (EventEnvelope F J))
      → (map_records rows ≡ ok es) ↔ Maps rows es
  unfolding map_records
  map_records-eq-ok [] [] = (λ h. tt, λ h. refl)
  map_records-eq-ok [] (e ∷ es) = (λ h. cc, λ h. absurd h)
  map_records-eq-ok (r ∷ rows) [] = (λ h. ground arith, λ h. absurd h)
  map_records-eq-ok (r ∷ rows) (e ∷ es) =
      let ih = map_records-eq-ok rows es in
      (λ h. ground (arith, ih.0), λ a. ground (arith, ih.1 a.1))

  -- A row keeps its columns on the way to an envelope.
  pub map_record-fields :
      (r : EventRow J) (e : EventEnvelope F J)
      → map_record_to_envelope r ≡ ok e
      → (e.tenant_id ≡ r.tenant_id)
        × (e.aggregate_id ≡ r.aggregate_id)
        × (e.sequence_id ≡ r.sequence_id)
        × (check_payload e.payload ≡ true)
  unfolding map_record_to_envelope
  map_record-fields r e h = elim (Option-cases (codec.parse r.payload)) [
    | inl x ↦ ground arith
    | inr (p, x) ↦ ground arith
  ]

  Maps-IsAscending :
      (n : ℕ) (rows : List (EventRow J)) (es : List (EventEnvelope F J))
      → Maps rows es
      → IsStrictFrom n rows
      → IsAscending n es
  Maps-IsAscending n [] [] m h = tt
  Maps-IsAscending n [] (e ∷ es) m h = absurd m
  Maps-IsAscending n (r ∷ rows) [] m h = absurd m
  Maps-IsAscending n (r ∷ rows) (e ∷ es) m h =
      let same = (map_record-fields r e m.0).2 in
      rw same (h.0, Maps-IsAscending r.sequence_id rows es m.1 h.1)

  Maps-In :
      (e : EventEnvelope F J) (rows : List (EventRow J)) (es : List (EventEnvelope F J))
      → Maps rows es
      → In e es ↔ ((r : EventRow J) × In r rows × (map_record_to_envelope r ≡ ok e))
  Maps-In e [] [] m = (λ i. absurd i, λ i. i.1)
  Maps-In e [] (e' ∷ es) m = absurd m
  Maps-In e (r ∷ rows) [] m = absurd m
  Maps-In e (r ∷ rows) (e' ∷ es) m = let ih = Maps-In e rows es m.1 in (forth ih, back ih)
    where
      forth :
          In e es ↔ ((q : EventRow J) × In q rows × (map_record_to_envelope q ≡ ok e))
          → In e (e' ∷ es)
          → (q : EventRow J) × In q (r ∷ rows) × (map_record_to_envelope q ≡ ok e)
      forth ih (inl same) = (r, inl refl, cc (m.0))
      forth ih (inr i) = let (q, inside, maps) = ih.0 i in (q, inr inside, maps)

      back :
          In e es ↔ ((q : EventRow J) × In q rows × (map_record_to_envelope q ≡ ok e))
          → (q : EventRow J) × In q (r ∷ rows) × (map_record_to_envelope q ≡ ok e)
          → In e (e' ∷ es)
      back ih (q, inl same, maps) = inl (cc (m.0))
      back ih (q, inr inside, maps) = inr (ih.1 (q, inside, maps))

module _ {F J : Type 0} ⦃float : Float F⦄ ⦃hasher : Hasher J⦄ ⦃codec : Codec F J⦄ where
  All-Readable :
      (rows : List (EventRow J)) (es : List (EventEnvelope F J))
      → All (λ r. verify_row r ≡ ok tt) rows
      → Maps rows es
      → All (Readable F) rows
  All-Readable [] es v m = tt
  All-Readable (r ∷ rows) [] v m = absurd m
  All-Readable (r ∷ rows) (e ∷ es) v m = ((v.0, (e, m.0)), All-Readable rows es v.1 m.1)

  Maps-exists :
      (rows : List (EventRow J))
      → All (Readable F) rows
      → (es : List (EventEnvelope F J)) × Maps rows es
  Maps-exists [] h = ([], tt)
  Maps-exists (r ∷ rows) h = let (es, m) = Maps-exists rows h.1 in (h.0.1.0 ∷ es, (h.0.1.1, m))

  pub get_events-eq-ok :
      (tenant agg : Uuid) (n : ℕ) (db : Db F J) (es : List (EventEnvelope F J))
      → (get_events tenant agg n db ≡ ok es) ↔ (
          All (λ r. verify_row r ≡ ok tt) (select_events tenant agg n db.events)
          × Maps (select_events tenant agg n db.events) es)
  unfolding get_events
  get_events-eq-ok tenant agg n db es =
      let rows = select_events tenant agg n db.events in
      let both = >>-eq-ok (verify_rows rows) (map_records rows) es in
      let first = verify_rows-eq-ok rows in
      let second = map_records-eq-ok rows es in
      (λ h. (first.0 (both.0 h).0, second.0 (both.0 h).1), λ g. both.1 (first.1 g.0, second.1 g.1))

  -- A stream can be read exactly if each of its rows behind the position verifies and holds a valid
  -- event by itself: no row is compared with another.
  pub get_events_total :
      (tenant agg : Uuid) (n : ℕ) (db : Db F J)
      → ((es : List (EventEnvelope F J)) × (get_events tenant agg n db ≡ ok es))
        ↔ All (λ r. Selected tenant agg n r → Readable F r) db.events
  get_events_total tenant agg n db = (forth, back)
    where
      forth :
          (es : List (EventEnvelope F J)) × (get_events tenant agg n db ≡ ok es)
          → All (λ r. Selected tenant agg n r → Readable F r) db.events
      forth (es, h) =
          let got = (get_events-eq-ok tenant agg n db es).0 h in
          All-select_events tenant agg n (Readable F) db.events (All-Readable _ es got.0 got.1)

      back :
          All (λ r. Selected tenant agg n r → Readable F r) db.events
          → (es : List (EventEnvelope F J)) × (get_events tenant agg n db ≡ ok es)
      back h =
          let readable = select_events-All tenant agg n (Readable F) db.events h in
          let (es, m) = Maps-exists _ readable in
          (
            es,
            (get_events-eq-ok tenant agg n db es).1
                (All-map (Readable F) (λ r. verify_row r ≡ ok tt) (λ r p. p.0) _ readable, m),
          )

  -- What is read from a well-formed log is in strictly ascending order, and holds an event exactly
  -- if a row of the stream behind the position holds it.
  pub get_events_exact :
      (tenant agg : Uuid) (n : ℕ) (db : Db F J) (es : List (EventEnvelope F J))
      → IsWellFormed db
      → get_events tenant agg n db ≡ ok es
      → IsAscending n es
        × ((e : EventEnvelope F J)
            → In e es ↔ (
                (r : EventRow J) × (In r db.events × Selected tenant agg n r)
                × (map_record_to_envelope r ≡ ok e)))
  get_events_exact tenant agg n db es w h =
      let got = (get_events-eq-ok tenant agg n db es).0 h in
      (
        Maps-IsAscending n _ es got.1 (select_events-IsStrictFrom tenant agg n db.events w.unique),
        λ e.
            let inside = Maps-In e _ es got.1 in
            (
              λ i.
                  let (r, there, maps) = inside.0 i in
                  (r, (select_events-In tenant agg n r db.events).0 there, maps),
              λ i. inside.1 (i.0, (select_events-In tenant agg n i.0 db.events).1 i.1, i.2),
            ),
      )
