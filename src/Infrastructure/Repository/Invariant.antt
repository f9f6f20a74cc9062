-- ===== src/Infrastructure/Repository/Invariant.antt =====
-- The invariant of the log along appends, and the commit of a transaction that appends.
use cloud_commander.Prelude.{
  ℕ, ◌≡◌, refl, sym, ap, ◌∙◌, ◌⊎◌, inl, inr, Bool, true, ◌&&◌, some, List, [], ◌∷◌, arith, ltb,
  Bool-cases, Option-cases, In,
}
use mathlib.Core.Path.{subst}
use cloud_commander.Text.{Text, text_eq}
use cloud_commander.Text.Laws.{text_eq_refl}
use cloud_commander.Uuid.{Uuid}
use cloud_commander.Errors.{ok, err, Exc, Result-cases}
use cloud_commander.Security.HashChain.{Hasher}
use cloud_commander.Security.HashChain.Raw.{IsHash}
use cloud_commander.Security.HashChain.Laws.{verify_chain-eq-ok}
use cloud_commander.Domain.Schemas.{EventEnvelope}
use cloud_commander.Infrastructure.Database.{
  EventRow, Db, any, all, in_stream, previous_known, commit_ok, previous_format,
}
use cloud_commander.Infrastructure.Database.Laws.{
  Inserts, Inserts-Differ, transaction_commits, transaction_fails, transaction_undone,
}
use cloud_commander.Infrastructure.Repository.{
  Codec, head_row, get_latest_hash, verify_row, event_row, append_on, append_with_conn,
  name_conflict, append_event_and_enqueue, append_event_on,
}
use cloud_commander.Infrastructure.Repository.Append.{
  Links, Linked, IsWellFormed, next_row, appended_on, appended, append_on-eq-ok,
  append_with_conn-eq-ok,
}

module _ {J : Type 0} where
  previous_format-IsHash : (r : EventRow J) → previous_format r ≡ true → IsHash r.previous_hash
  unfolding previous_format
  previous_format-IsHash r h = elim (Option-cases r.previous_hash) [
    | inl e ↦ rw e tt
    | inr (p, e) ↦ rw e (ground arith)
  ]

  abbrev has_hash : Uuid → Uuid → Text → EventRow J → Bool
  has_hash tenant agg h q = in_stream tenant agg q && text_eq q.event_hash h

  head_row-In :
      (tenant agg : Uuid) (rows : List (EventRow J)) (q : EventRow J)
      → head_row tenant agg rows ≡ some q
      → In q rows × (in_stream tenant agg q ≡ true)
  unfolding head_row
  head_row-In tenant agg [] q h = cc
  head_row-In tenant agg (r ∷ rows) q h = elim (Bool-cases (in_stream tenant agg r)) [
    | inr o ↦ let (i, own) = head_row-In tenant agg rows q (rw (o, head_row) at h) in (inr i, own)
    | inl o ↦ elim (Option-cases (head_row tenant agg rows)) [
      | inl e ↦ let same : r ≡ q = cc (rw (o, e, head_row) at h) in rw (← same) (inl refl, o)
      | inr (q', e) ↦
          let picked = rw (o, e, head_row) at h in
          elim (Bool-cases (ltb q'.sequence_id r.sequence_id)) [
            | inl l ↦ let same : r ≡ q = cc (rw l at picked) in rw (← same) (inl refl, o)
            | inr l ↦
                let same : q' ≡ q = cc (rw l at picked) in
                let (i, own) = head_row-In tenant agg rows q (e ∙ ap some same) in (inr i, own)
          ]
    ]
  ]

  any-has_hash :
      (tenant agg : Uuid) (q : EventRow J) (rows : List (EventRow J))
      → In q rows
      → in_stream tenant agg q ≡ true
      → any (has_hash tenant agg q.event_hash) rows ≡ true
  unfolding any
  any-has_hash tenant agg q [] i o = absurd i
  any-has_hash tenant agg q (r ∷ rows) (inl e) o =
      rw (← e) (ground (arith, o, text_eq_refl q.event_hash))
  any-has_hash tenant agg q (r ∷ rows) (inr i) o =
      ground (arith, any-has_hash tenant agg q rows i o)

  known_more :
      (x r : EventRow J) (rows : List (EventRow J))
      → previous_known rows r ≡ true
      → previous_known (x ∷ rows) r ≡ true
  unfolding previous_known any
  known_more x r rows h = elim (Option-cases r.previous_hash) [
    | inl e ↦ ground arith
    | inr (p, e) ↦ ground arith
  ]

  all-known_more :
      (x : EventRow J) (rows xs : List (EventRow J))
      → all (previous_known rows) xs ≡ true
      → all (previous_known (x ∷ rows)) xs ≡ true
  unfolding all
  all-known_more x rows [] h = refl
  all-known_more x rows (y ∷ xs) h = ground (arith, known_more x y rows, all-known_more x rows xs)

  link-known :
      (r : EventRow J) (rows : List (EventRow J)) → Links r rows → previous_known rows r ≡ true
  unfolding previous_known
  link-known r rows (required, inl e) = rw (e, previous_known)
  link-known r rows (required, inr (q, i, o, e)) =
      rw (e, previous_known) (any-has_hash r.tenant_id r.aggregate_id q rows i o)

  -- In a linked log every previous hash is known, so the foreign key holds.
  Linked-known : (rows : List (EventRow J)) → Linked rows → all (previous_known rows) rows ≡ true
  unfolding all
  Linked-known [] h = refl
  Linked-known (r ∷ rows) h = ground (
    arith,
    known_more r r rows (link-known r rows h.0),
    all-known_more r rows rows (Linked-known rows h.1),
  )

module _ {F J : Type 0} ⦃hasher : Hasher J⦄ ⦃codec : Codec F J⦄ where
  next_row-verifies :
      (e : EventEnvelope F J) (seen : Db F J) (rows : List (EventRow J))
      → Inserts (next_row e seen) rows
      → verify_row (next_row e seen) ≡ ok tt
  unfolding verify_row event_row
  next_row-verifies e seen rows h =
      (verify_chain-eq-ok _ _ _ _ _ _ _).1
        (previous_format-IsHash (next_row e seen) h.previous, h.event_format, refl)

  -- Every event of the one database is in the other.
  abbrev pub Kept : Db F J → Db F J → Type 0
  Kept seen db = (r : EventRow J) → In r seen.events → In r db.events

  next_row-Links :
      (e : EventEnvelope F J) (seen db : Db F J)
      → Kept seen db
      → Inserts (next_row e seen) db.events
      → Links (next_row e seen) db.events
  unfolding event_row get_latest_hash
  next_row-Links e seen db kept_all h =
      elim (Option-cases (head_row e.tenant_id e.aggregate_id seen.events)) [
        | inl n ↦ (h.required, inl (rw n refl))
        | inr (q, n) ↦
            let (i, own) = head_row-In e.tenant_id e.aggregate_id seen.events q n in
            (h.required, inr (q, kept_all q i, own, rw n refl))
      ]

  -- An append that the constraints accept keeps the log well formed, also where others have
  -- committed since the head of the stream was read: no two events share an id, a place in a
  -- stream, a key or a hash, every hash verifies, every event links to an earlier one of its
  -- stream, and every event has its entry in the outbox.
  pub appended_on-IsWellFormed :
      (now : ℕ) (e : EventEnvelope F J) (seen db : Db F J)
      → IsWellFormed db
      → Kept seen db
      → Inserts (next_row e seen) db.events
      → IsWellFormed (appended_on now e seen db)
  unfolding event_row get_latest_hash
  appended_on-IsWellFormed now e seen db w kept_all h = record {
    unique = (Inserts-Differ h, w.unique);
    verified = (next_row-verifies e seen db.events h, w.verified);
    linked = (next_row-Links e seen db kept_all h, w.linked);
    paired = (refl, refl, w.paired);
  }

  pub appended-IsWellFormed :
      (now : ℕ) (e : EventEnvelope F J) (db : Db F J)
      → IsWellFormed db
      → Inserts (next_row e db) db.events
      → IsWellFormed (appended now e db)
  appended-IsWellFormed now e db w h = appended_on-IsWellFormed now e db db w (λ r i. i) h

  pub commit_ok_lem : {db : Db F J} → IsWellFormed db → commit_ok db ≡ true
  unfolding commit_ok
  commit_ok_lem {db} w = Linked-known db.events w.linked

  -- On a well-formed log an append either passes every constraint, commits and adds one event and
  -- one outbox entry, or fails, with the error that its exception is renamed to, and leaves the
  -- database as it was.
  pub append_outcome :
      (now : ℕ) (e : EventEnvelope F J) (db : Db F J)
      → IsWellFormed db
      → (Inserts (next_row e db) db.events
          × (append_event_and_enqueue now e db ≡ (ok tt, appended now e db)))
        ⊎ ((x : Exc) × (append_with_conn now e db ≡ err x)
            × (append_event_and_enqueue now e db ≡ (err (name_conflict e x), db)))
  unfolding append_event_and_enqueue
  append_outcome now e db w = elim (Result-cases (append_with_conn now e db)) [
    | inl ((u, db'), done) ↦
        let got = (append_with_conn-eq-ok now e db db').0 done in
        let same = (append_with_conn-eq-ok now e db (appended now e db)).1 (got.0, refl) in
        let kept = commit_ok_lem (appended-IsWellFormed now e db w got.0) in
        inl (
          got.0,
          rw (transaction_commits (append_with_conn now e) db (appended now e db) tt same kept),
        )
    | inr (x, failed) ↦ inr (x, failed, rw (transaction_fails (append_with_conn now e) db x failed))
  ]

  -- A row that passes the constraints is appended.
  pub append_accepted :
      (now : ℕ) (e : EventEnvelope F J) (db : Db F J)
      → IsWellFormed db
      → Inserts (next_row e db) db.events
      → append_event_and_enqueue now e db ≡ (ok tt, appended now e db)
  append_accepted now e db w h = elim (append_outcome now e db w) [
    | inl (same, done) ↦ done
    | inr (x, failed, undone) ↦
        cc (failed, (append_with_conn-eq-ok now e db (appended now e db)).1 (h, refl))
  ]

  -- An append to a well-formed log leaves it well formed, whether it is accepted or refused: ids,
  -- places in a stream, keys within a tenant and hashes within a stream unique, every hash
  -- verified, every event linked to an earlier one of its stream, and one outbox entry for
  -- every event.
  pub append-IsWellFormed :
      (now : ℕ) (e : EventEnvelope F J) (db : Db F J)
      → IsWellFormed db
      → IsWellFormed (append_event_and_enqueue now e db).1
  append-IsWellFormed now e db w = elim (append_outcome now e db w) [
    | inl (h, same) ↦ rw same (appended-IsWellFormed now e db w h)
    | inr (x, failed, same) ↦ rw same w
  ]

  -- What an append of which the head was read earlier leaves: what it found, or the new row too.
  pub append_event_on-cases :
      (P : Db F J → Type 0) (now : ℕ) (e : EventEnvelope F J) (seen db : Db F J)
      → P db
      → (Inserts (next_row e seen) db.events → P (appended_on now e seen db))
      → P (append_event_on now e seen db).1
  unfolding append_event_on
  append_event_on-cases P now e seen db found holds =
      elim (Result-cases (append_on now e seen db)) [
        | inr (x, failed) ↦ rw (transaction_fails (append_on now e seen) db x failed) found
        | inl ((u, d), done) ↦
            let got = (append_on-eq-ok now e seen db d).0 done in
            elim (Bool-cases (commit_ok d)) [
              | inl c ↦
                  rw (transaction_commits (append_on now e seen) db d u done c)
                    (subst P (sym got.1) (holds got.0))
              | inr c ↦
                  let (x, undone) = transaction_undone (append_on now e seen) db d u done c in
                  rw undone found
            ]
      ]
