-- ===== src/Worker/Projection.antt =====
-- What the projections of a stream come to, when a worker computes and writes them one by one.
pub mod Current
use cloud_commander.Prelude.{
  ◌≡◌, refl, sym, ap, ◌∙◌, inl, inr, true, Option, none, some, List, [], ◌∷◌, arith, ltb,
  Bool-cases, Option-cases, All,
}
use mathlib.Core.Option
use cloud_commander.Uuid.{Uuid}
use cloud_commander.Float.{Float, IsOrdered}
use cloud_commander.Errors.{Result, ok, ◌>>=◌, Result-cases}
use cloud_commander.Domain.Schemas.{
  EventEnvelope, ResourceNodeSnapshot, check_payload, check_snapshot,
}
use cloud_commander.Domain.Reducers.{or_initial, reduce_node, replay}
use cloud_commander.Domain.Replay.{reduce_node_stale, last-reduce_node}
use cloud_commander.Domain.Validity.{initial-check_snapshot, reduce_node-check_snapshot}
use cloud_commander.Infrastructure.Database.{NodeRow, Db}
use cloud_commander.Infrastructure.Repository.{
  find_node, upsert_row, get_node_projection, upsert_node_projection,
}
use cloud_commander.Infrastructure.Repository.Nodes.{
  newest, find_node-upsert_row, find_node-is_node,
}
use cloud_commander.Worker.Records.{compute_next_projection_state, apply_projection}

module _ {F J : Type 0} ⦃float : Float F⦄ where
  -- `_compute_next_projection_state`, then the upsert, for each event in its turn
  unfoldable pub project_all : List (EventEnvelope F J) → Db F J → Result (Db F J)
  unfolding compute_next_projection_state apply_projection
  project_all [] db = ok db
  project_all (e ∷ es) db = compute_next_projection_state e db >>= λ s.
      project_all es (apply_projection e.tenant_id (some s) db)

-- The snapshot of a node in the read model
unfoldable pub stored : {F J : Type 0} → Uuid → Uuid → Db F J → Option (ResourceNodeSnapshot F)
stored tenant node db = Option.map (λ r. r.snapshot) (find_node tenant node db.nodes)

-- The events are of the node's stream, and pass their schemas.
abbrev pub OfStream : {F J : Type 0} ⦃float : Float F⦄ → Uuid → Uuid → EventEnvelope F J → Type 0
OfStream tenant node e =
    (e.tenant_id ≡ tenant) × (e.aggregate_id ≡ node) × (check_payload e.payload ≡ true)

-- What is stored of the node passes its schema.
abbrev pub IsSound : {F : Type 0} ⦃float : Float F⦄ → Option (ResourceNodeSnapshot F) → Type 0
IsSound none = Unit
IsSound (some s) = check_snapshot s ≡ true

module _ {F J : Type 0} ⦃float : Float F⦄ where
  get_node_projection-stored :
      (tenant node : Uuid) (db : Db F J)
      → IsSound (stored tenant node db)
      → get_node_projection tenant node db ≡ ok (stored tenant node db)
  unfolding get_node_projection stored
  get_node_projection-stored tenant node db sound =
      elim (Option-cases (find_node tenant node db.nodes)) [
        | inl e ↦ rw (e, get_node_projection) refl
        | inr (r, e) ↦
            let good : check_snapshot r.snapshot ≡ true = rw e at sound in
            rw (e, good, get_node_projection) refl
      ]

  -- What the reducer makes of the stored snapshot is the newer of the two.
  reduce_node-newest :
      (o : Option (NodeRow F)) (e : EventEnvelope F J) (s : ResourceNodeSnapshot F)
      → reduce_node (Option.map (λ r. r.snapshot) o) e ≡ ok s
      → newest o s ≡ s
  reduce_node-newest none e s h = refl
  reduce_node-newest (some r) e s h =
      let last = (last-reduce_node (some r.snapshot) e s h).0 in
      elim (Bool-cases (ltb r.snapshot.last_sequence_id s.last_sequence_id)) [
        | inl l ↦ rw l refl
        | inr l ↦
            let old = reduce_node_stale r.snapshot e (ground (arith, last)) in
            let same : r.snapshot ≡ s = cc in rw l same
      ]

  stored-node_id :
      (tenant node : Uuid) (db : Db F J) (s : ResourceNodeSnapshot F)
      → stored tenant node db ≡ some s
      → s.node_id ≡ node
  unfolding stored
  stored-node_id tenant node db s h = elim (Option-cases (find_node tenant node db.nodes)) [
    | inl e ↦ cc
    | inr (r, e) ↦
        let own = find_node-is_node tenant node r db.nodes e in
        let same : r.snapshot ≡ s = cc in rw⁻¹ same (ground arith)
  ]

  or_initial-node_id :
      (tenant node : Uuid) (db : Db F J) (o : Option (ResourceNodeSnapshot F))
      → stored tenant node db ≡ o
      → (or_initial o node).node_id ≡ node
  or_initial-node_id tenant node db none h = refl
  or_initial-node_id tenant node db (some s) h = stored-node_id tenant node db s h

  pub stored-apply_projection :
      (tenant node : Uuid) (e : EventEnvelope F J) (s : ResourceNodeSnapshot F) (db : Db F J)
      → e.aggregate_id ≡ node
      → reduce_node (stored tenant node db) e ≡ ok s
      → stored tenant node (apply_projection tenant (some s) db) ≡ some s
  unfolding stored apply_projection upsert_node_projection
  stored-apply_projection tenant node e s db own h =
      let (last, id, version) = last-reduce_node (stored tenant node db) e s h in
      let named : s.node_id ≡ node =
        id ∙ rw own (or_initial-node_id tenant node db (stored tenant node db) refl) in
      let (r, found, same) =
        find_node-upsert_row (record { tenant_id = tenant; snapshot = s }) db.nodes in
      ap (Option.map (λ q. q.snapshot)) (
        ap
          (λ n.
            find_node tenant n (upsert_row (record { tenant_id = tenant; snapshot = s }) db.nodes))
          (sym named)
        ∙ found)
      ∙ ap some (
          same
          ∙ ap (λ n. newest (find_node tenant n db.nodes) s) named
          ∙ reduce_node-newest (find_node tenant node db.nodes) e s h)

  pub compute_next_projection_state-reduce :
      (tenant node : Uuid) (e : EventEnvelope F J) (db : Db F J)
      → OfStream tenant node e
      → IsSound (stored tenant node db)
      → compute_next_projection_state e db ≡ reduce_node (stored tenant node db) e
  unfolding compute_next_projection_state
  compute_next_projection_state-reduce tenant node e db own sound =
      let read : get_node_projection e.tenant_id e.aggregate_id db ≡ ok (stored tenant node db) =
        rw (own.0, own.1) (get_node_projection-stored tenant node db sound) in
      rw (read, compute_next_projection_state) refl

or_initial-check_snapshot :
    {F : Type 0} ⦃float : Float F⦄ (laws : IsOrdered F) (o : Option (ResourceNodeSnapshot F))
    (node : Uuid)
    → IsSound o
    → check_snapshot (or_initial o node) ≡ true
or_initial-check_snapshot laws none node sound = initial-check_snapshot laws node
or_initial-check_snapshot laws (some s) node sound = sound

module _ {F J : Type 0} ⦃float : Float F⦄ (laws : IsOrdered F) where
  -- When the events of a node's stream are projected one after another, each computed from the read
  -- model and then written to it, what is stored of the node at the end, or the error, is what
  -- replaying the stream from what was stored gives, if the events and the stored node pass their
  -- schemas and floats are ordered as doubles are.
  pub project_all-replay :
      (tenant node : Uuid) (es : List (EventEnvelope F J)) (db : Db F J)
      → All (OfStream tenant node) es
      → IsSound (stored tenant node db)
      → (project_all es db >>= λ d. ok (stored tenant node d)) ≡ replay (stored tenant node db) es
  unfolding project_all replay
  project_all-replay tenant node [] db own sound = refl
  project_all-replay tenant node (e ∷ es) db own sound =
      let computed = compute_next_projection_state-reduce tenant node e db own.0 sound in
      elim (Result-cases (reduce_node (stored tenant node db) e)) [
        | inr (x, h) ↦ rw (computed, h, project_all, replay) refl
        | inl (s, h) ↦
            let there : stored tenant node (apply_projection e.tenant_id (some s) db) ≡ some s =
              rw own.0.0 (stored-apply_projection tenant node e s db own.0.1 h) in
            let good =
              reduce_node-check_snapshot laws (stored tenant node db) e s own.0.2
                (or_initial-check_snapshot laws (stored tenant node db) e.aggregate_id sound) h in
            let rest =
              project_all-replay tenant node es (apply_projection e.tenant_id (some s) db) own.1
                (rw there good) in
            rw (computed, h, project_all, replay) (rest ∙ ap (λ o. replay o es) there)
      ]
