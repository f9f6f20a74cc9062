-- ===== src/Domain/Replay.antt =====
-- Replaying a stream of events through the reducer.
pub mod Parts
use cloud_commander.Prelude.{
  ℕ, zero, suc, ◌+◌, ◌-◌, ◌*◌, ◌/◌, ◌%◌, ◌^◌, ◌≤◌, ◌<◌, max, String, ◌≡◌, refl, sym, ap, ◌∙◌, ◌≢◌,
  ◌↔◌, ◌⊎◌, inl, inr, Bool, true, false, not, ◌&&◌, ◌||◌, Option, none, some, List, [], ◌∷◌, ◌++◌,
  map, arith, ltb, leb, ◌==◌, if◌then◌else◌, ==_iff, Bool-cases, Option-cases, leb-true, leb-false,
  tests, length, length-append, All, All-append, All-map, All-of, In, All-In, In-behind, kept,
  skipped,
}
use cloud_commander.Text.{Text}
use cloud_commander.Uuid.{Uuid}
use cloud_commander.Float.{Float}
use cloud_commander.Errors.{ok, >>=-eq-ok}
use cloud_commander.Security.RbacPolicy.{allocate, freeze, resolve}
use cloud_commander.Security.RbacPolicy.Laws.{Permits, verify_permission-eq-ok}
use cloud_commander.Domain.Schemas.{
  EventPayload, allocation_requested, aggregate_frozen, drift_resolved, EventEnvelope,
  LifecycleState, active, frozen, ResourceNodeSnapshot,
}
use cloud_commander.Domain.Reducers.{is_frozen, or_initial, apply_payload, reduce_node, replay}

-- What the event asks of its actor and of the node's state. The reducer asks nothing of a rollback,
-- a dependency edge or any other payload: no claim, and no state of the node.
abbrev pub Allowed : {F J : Type 0} → EventPayload F J → LifecycleState → List Text → Uuid → Type 0
Allowed (allocation_requested p) l claims node =
    Permits claims allocate node × (is_frozen l ≡ false)
Allowed (aggregate_frozen p) l claims node = Permits claims freeze node
Allowed (drift_resolved p) l claims node = Permits claims resolve node × (is_frozen l ≡ true)
Allowed _ l claims node = Unit

-- The state that the event leads to.
abbrev pub after :
    {F J : Type 0} → EventPayload F J → ℕ → ResourceNodeSnapshot F → ResourceNodeSnapshot F
after (allocation_requested p) seq s = record s {
  cpu_cores = p.target_cpu_cores;
  memory_gb = p.target_memory_gb;
  last_sequence_id = seq;
}
after (aggregate_frozen p) seq s = record s { lifecycle_state = frozen; last_sequence_id = seq }
after (drift_resolved p) seq s = record s { lifecycle_state = active; last_sequence_id = seq }
after _ seq s = record s { last_sequence_id = seq }

module _ {F J : Type 0} where
  pub apply_payload-eq-ok :
      (p : EventPayload F J) (s t : ResourceNodeSnapshot F) (e : EventEnvelope F J)
      → (apply_payload p s e ≡ ok t) ↔ (
          Allowed p s.lifecycle_state e.actor_claims e.aggregate_id × (t ≡ after p e.sequence_id s))
  unfolding apply_payload
  apply_payload-eq-ok (allocation_requested p) s t e =
      let permit = verify_permission-eq-ok e.actor_claims allocate e.aggregate_id in
      (λ h. ground (arith, permit.0), λ g. ground (arith, permit.1 g.0.0))
  apply_payload-eq-ok (aggregate_frozen p) s t e =
      let permit = verify_permission-eq-ok e.actor_claims freeze e.aggregate_id in
      (λ h. ground (arith, permit.0), λ g. ground (arith, permit.1 g.0))
  apply_payload-eq-ok (drift_resolved p) s t e =
      let permit = verify_permission-eq-ok e.actor_claims resolve e.aggregate_id in
      (λ h. ground (arith, permit.0), λ g. ground (arith, permit.1 g.0.0))
  apply_payload-eq-ok _ s t e = (λ h. ground arith, λ g. ground arith)

-- The events are newer than `n`, in ascending order.
abbrev pub IsAscending : {F J : Type 0} → ℕ → List (EventEnvelope F J) → Type 0
IsAscending n [] = Unit
IsAscending n (e ∷ es) = (n < e.sequence_id) × IsAscending e.sequence_id es

module _ {F J : Type 0} ⦃float : Float F⦄ where
  -- An event newer than the state is accepted exactly if its actor is permitted and the lifecycle
  -- allows it, and then leads to the state that it describes.
  pub reduce_node_new :
      (state : Option (ResourceNodeSnapshot F)) (e : EventEnvelope F J) (t : ResourceNodeSnapshot F)
      → let s = or_initial state e.aggregate_id in
        s.last_sequence_id < e.sequence_id
        → (reduce_node state e ≡ ok t) ↔ (
            Allowed e.payload s.lifecycle_state e.actor_claims e.aggregate_id
            × (t ≡ after e.payload e.sequence_id s))
  unfolding reduce_node
  reduce_node_new state e t h =
      let s = or_initial state e.aggregate_id in
      let exact = apply_payload-eq-ok e.payload s t e in
      (λ r. exact.0 (ground arith), λ g. ground (arith, exact.1 g))

  pub reduce_node_stale :
      (s : ResourceNodeSnapshot F) (e : EventEnvelope F J)
      → e.sequence_id ≤ s.last_sequence_id
      → reduce_node (some s) e ≡ ok s
  unfolding reduce_node
  reduce_node_stale s e h = ground arith

  last-after :
      (p : EventPayload F J) (n : ℕ) (s : ResourceNodeSnapshot F)
      → ((after p n s).last_sequence_id ≡ n)
        × ((after p n s).node_id ≡ s.node_id)
        × ((after p n s).schema_version ≡ s.schema_version)
  last-after (allocation_requested p) n s = (refl, refl, refl)
  last-after _ n s = (refl, refl, refl)

  -- A step that succeeds moves the sequence number to the larger of the two and keeps the node and
  -- its schema version.
  pub last-reduce_node :
      (state : Option (ResourceNodeSnapshot F)) (e : EventEnvelope F J) (t : ResourceNodeSnapshot F)
      → reduce_node state e ≡ ok t
      → let s = or_initial state e.aggregate_id in
        (t.last_sequence_id ≡ max s.last_sequence_id e.sequence_id)
        × (t.node_id ≡ s.node_id)
        × (t.schema_version ≡ s.schema_version)
  unfolding reduce_node
  last-reduce_node state e t h =
      let s = or_initial state e.aggregate_id in
      elim (Bool-cases (leb e.sequence_id s.last_sequence_id)) [
        | inl old ↦ ground arith
        | inr new ↦
            let exact = (apply_payload-eq-ok e.payload s t e).0 (ground arith) in
            let shape = last-after e.payload e.sequence_id s in
            rw exact.1 (omega (tests, shape.0), shape.1, shape.2)
      ]

  pub replay-cons :
      (state : Option (ResourceNodeSnapshot F)) (e : EventEnvelope F J)
      (es : List (EventEnvelope F J)) (r : Option (ResourceNodeSnapshot F))
      → replay state (e ∷ es) ≡ ok r
      → (s : ResourceNodeSnapshot F) × (reduce_node state e ≡ ok s) × (replay (some s) es ≡ ok r)
  unfolding replay
  replay-cons state e es r h = >>=-eq-ok (reduce_node state e) (λ s. replay (some s) es) h

-- Every event of the stream is allowed in the state that the events before it lead to.
abbrev pub AllAllowed : {F J : Type 0} → ResourceNodeSnapshot F → List (EventEnvelope F J) → Type 0
AllAllowed s [] = Unit
AllAllowed s (e ∷ es) =
    Allowed e.payload s.lifecycle_state e.actor_claims e.aggregate_id
    × AllAllowed (after e.payload e.sequence_id s) es

-- The state that a stream describes, with no test.
abbrev pub after_all :
    {F J : Type 0} → ResourceNodeSnapshot F → List (EventEnvelope F J) → ResourceNodeSnapshot F
after_all s [] = s
after_all s (e ∷ es) = after_all (after e.payload e.sequence_id s) es

module _ {F J : Type 0} ⦃float : Float F⦄ where
  -- From a state that is older than an ascending stream the replay succeeds exactly if every event
  -- meets the reducer's rule for its payload at its turn, the claim and the lifecycle where it has
  -- one, and then leaves the state that the stream describes.
  pub replay-eq-ok :
      (s : ResourceNodeSnapshot F) (es : List (EventEnvelope F J))
      (r : Option (ResourceNodeSnapshot F))
      → IsAscending s.last_sequence_id es
      → (replay (some s) es ≡ ok r) ↔ (AllAllowed s es × (r ≡ some (after_all s es)))
  unfolding replay
  replay-eq-ok s [] r h = (λ e. ground arith, λ g. ground arith)
  replay-eq-ok s (e ∷ es) r h =
      let next = after e.payload e.sequence_id s in
      let ih = replay-eq-ok next es r (rw ((last-after e.payload e.sequence_id s).0) (h.1)) in
      (
        λ p.
            let (s', step, rest) = replay-cons (some s) e es r p in
            let got = (reduce_node_new (some s) e s' h.0).0 step in
            let tail = ih.0 (rw got.1 at rest) in ((got.0, tail.0), tail.1),
        λ g. rw ((reduce_node_new (some s) e next h.0).1 (g.0.0, refl)) (ih.1 (g.0.1, g.1)),
      )
