-- ===== src/Domain/Lifecycle.antt =====
-- How a node is frozen and thawed, and what a freeze protects.
use cloud_commander.Prelude.{
  ◌≡◌, refl, ap, ◌∙◌, ◌≢◌, ◌⊎◌, inl, inr, Bool, true, false, some, List, [], ◌∷◌, ◌++◌, leb,
  Bool-cases, leb-true, leb-false, All,
}
use cloud_commander.Float.{Float}
use cloud_commander.Errors.{ok}
use cloud_commander.Security.RbacPolicy.{resolve}
use cloud_commander.Security.RbacPolicy.Laws.{Permits}
use cloud_commander.Domain.Schemas.{
  EventPayload, allocation_requested, aggregate_frozen, drift_resolved, EventEnvelope,
  LifecycleState, active, orphaned, tombstoned, frozen, ResourceNodeSnapshot,
}
use cloud_commander.Domain.Reducers.{is_frozen, reduce_node, replay}
use cloud_commander.Domain.Replay.{Allowed, after, reduce_node_new, reduce_node_stale, replay-cons}

is_frozen-eq : (l : LifecycleState) → is_frozen l ≡ true → l ≡ frozen
is_frozen-eq active h = cc
is_frozen-eq orphaned h = cc
is_frozen-eq tombstoned h = cc
is_frozen-eq frozen h = refl

active-cases : (l : LifecycleState) → (l ≡ active) ⊎ (l ≢ active)
active-cases active = inl refl
active-cases orphaned = inr (λ h. cc)
active-cases tombstoned = inr (λ h. cc)
active-cases frozen = inr (λ h. cc)

-- `drift_resolved` is the one payload that thaws.
abbrev pub thaws : {F J : Type 0} → EventPayload F J → Bool
thaws (drift_resolved p) = true
thaws _ = false

module _ {F J : Type 0} ⦃float : Float F⦄ where
  after-thaws :
      (p : EventPayload F J) (s : ResourceNodeSnapshot F) (e : EventEnvelope F J)
      → s.lifecycle_state ≢ active
      → (after p e.sequence_id s).lifecycle_state ≡ active
      → Allowed p s.lifecycle_state e.actor_claims e.aggregate_id
      → (s.lifecycle_state ≡ frozen)
        × (thaws p ≡ true)
        × Permits e.actor_claims resolve e.aggregate_id
  after-thaws (aggregate_frozen p) s e n h a = cc
  after-thaws (drift_resolved p) s e n h a = (is_frozen-eq s.lifecycle_state a.1, refl, a.0)
  after-thaws (allocation_requested p) s e n h a = absurd (n h)
  after-thaws _ s e n h a = absurd (n h)

  reduce_node-thaws :
      (s t : ResourceNodeSnapshot F) (e : EventEnvelope F J)
      → s.lifecycle_state ≢ active
      → t.lifecycle_state ≡ active
      → reduce_node (some s) e ≡ ok t
      → (s.lifecycle_state ≡ frozen)
        × (thaws e.payload ≡ true)
        × Permits e.actor_claims resolve e.aggregate_id
  reduce_node-thaws s t e n a h = elim (Bool-cases (leb e.sequence_id s.last_sequence_id)) [
    | inl old ↦
        let same : s ≡ t = cc (reduce_node_stale s e (leb-true _ _ old)) in absurd (n (rw same a))
    | inr new ↦
        let got = (reduce_node_new (some s) e t (leb-false _ _ new)).0 h in
        after-thaws e.payload s e n (rw got.1 at a) got.0
  ]

  -- Where a replay takes a node that is not active to the state active, the stream has an event
  -- that resolves drift, its actor has the claim for this, and the events before it leave the node
  -- frozen.
  pub replay-thaws :
      (s t : ResourceNodeSnapshot F) (es : List (EventEnvelope F J))
      → s.lifecycle_state ≢ active
      → t.lifecycle_state ≡ active
      → replay (some s) es ≡ ok (some t)
      → (before behind : List (EventEnvelope F J)) × (e : EventEnvelope F J)
        × (m : ResourceNodeSnapshot F) × (es ≡ before ++ (e ∷ behind))
        × (replay (some s) before ≡ ok (some m))
        × (m.lifecycle_state ≡ frozen)
        × (thaws e.payload ≡ true)
        × Permits e.actor_claims resolve e.aggregate_id
  unfolding replay
  replay-thaws s t [] n a h = let same : s ≡ t = cc in absurd (n (rw same a))
  replay-thaws s t (e ∷ es) n a h =
      let (s', first, rest) = replay-cons (some s) e es (some t) h in
      elim (active-cases s'.lifecycle_state) [
        | inl thawed ↦
            let (froze, found, permitted) = reduce_node-thaws s s' e n thawed first in
            ([], es, e, s, refl, refl, froze, found, permitted)
        | inr still ↦
            let (before, behind, r, m, same, replayed, froze, found, permitted) =
              replay-thaws s' t es still a rest in
            (
              e ∷ before,
              behind,
              r,
              m,
              ap (λ l. e ∷ l) same,
              rw (first, replay) replayed,
              froze,
              found,
              permitted,
            )
      ]

  after_frozen :
      (p : EventPayload F J) (s : ResourceNodeSnapshot F) (e : EventEnvelope F J)
      → s.lifecycle_state ≡ frozen
      → thaws p ≡ false
      → Allowed p s.lifecycle_state e.actor_claims e.aggregate_id
      → let t = after p e.sequence_id s in
        (t.lifecycle_state ≡ frozen) × (t.cpu_cores ≡ s.cpu_cores) × (t.memory_gb ≡ s.memory_gb)
  after_frozen (allocation_requested p) s e f n h =
      absurd (is_frozen-absurd s.lifecycle_state f h.1)
    where
      is_frozen-absurd : (l : LifecycleState) → l ≡ frozen → is_frozen l ≡ false → ⊥
      is_frozen-absurd l f h = cc (rw f at h)
  after_frozen (aggregate_frozen p) s e f n h = (refl, refl, refl)
  after_frozen (drift_resolved p) s e f n h = cc
  after_frozen _ s e f n h = (f, refl, refl)

  reduce_node_frozen :
      (s t : ResourceNodeSnapshot F) (e : EventEnvelope F J)
      → s.lifecycle_state ≡ frozen
      → thaws e.payload ≡ false
      → reduce_node (some s) e ≡ ok t
      → (t.lifecycle_state ≡ frozen) × (t.cpu_cores ≡ s.cpu_cores) × (t.memory_gb ≡ s.memory_gb)
  reduce_node_frozen s t e f n h = elim (Bool-cases (leb e.sequence_id s.last_sequence_id)) [
    | inl old ↦
        let same : s ≡ t = cc (reduce_node_stale s e (leb-true _ _ old)) in
        rw (← same) (f, refl, refl)
    | inr new ↦
        let got = (reduce_node_new (some s) e t (leb-false _ _ new)).0 h in
        rw got.1 (after_frozen e.payload s e f n got.0)
  ]

  -- Where no event of a stream resolves the drift, a replay that succeeds leaves a frozen node
  -- frozen, with its cores and its memory as they were.
  pub replay_frozen :
      (s t : ResourceNodeSnapshot F) (es : List (EventEnvelope F J))
      → s.lifecycle_state ≡ frozen
      → All (λ e. thaws e.payload ≡ false) es
      → replay (some s) es ≡ ok (some t)
      → (t.lifecycle_state ≡ frozen) × (t.cpu_cores ≡ s.cpu_cores) × (t.memory_gb ≡ s.memory_gb)
  unfolding replay
  replay_frozen s t [] f n h = let same : s ≡ t = cc in rw (← same) (f, refl, refl)
  replay_frozen s t (e ∷ es) f n h =
      let (s', first, rest) = replay-cons (some s) e es (some t) h in
      let kept = reduce_node_frozen s s' e f n.0 first in
      let later = replay_frozen s' t es kept.0 n.1 rest in
      (later.0, later.1 ∙ kept.1, later.2 ∙ kept.2)
