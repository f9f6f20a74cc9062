-- ===== src/Domain/Validity.antt =====
-- The bounds of the schema along the reducer.
use cloud_commander.Prelude.{
  ℕ, ◌≡◌, inl, inr, true, Option, none, some, List, [], ◌∷◌, arith, leb, Bool-cases, leb-false, All,
}
use cloud_commander.Uuid.{Uuid}
use cloud_commander.Float.{Float, IsOrdered}
use cloud_commander.Errors.{ok}
use cloud_commander.Domain.Schemas.{
  EventPayload, allocation_requested, EventEnvelope, ResourceNodeSnapshot, check_payload,
  check_snapshot, finite_between,
}
use cloud_commander.Domain.Reducers.{initial, or_initial, reduce_node, replay}
use cloud_commander.Domain.Replay.{after, reduce_node_new, replay-cons}

module _ {F : Type 0} ⦃float : Float F⦄ (laws : IsOrdered F) where
  widen :
      (lo lo' hi v : F)
      → float.le lo' lo ≡ true
      → finite_between lo hi v ≡ true
      → finite_between lo' hi v ≡ true
  widen lo lo' hi v below h = ground (arith, laws.le_trans lo' lo v)

  pub initial-check_snapshot : (node : Uuid) → check_snapshot (initial {F = F} node) ≡ true
  unfolding check_snapshot
  initial-check_snapshot node = ground (
    arith,
    laws.lit_le 0 0 0 0,
    laws.lit_le 0 0 128 0,
    laws.lit_le 0 0 1024 0,
    laws.lit_finite 0 0,
  )

module _ {F J : Type 0} ⦃float : Float F⦄ (laws : IsOrdered F) where
  after-check_snapshot :
      (p : EventPayload F J) (n : ℕ) (s : ResourceNodeSnapshot F)
      → check_payload p ≡ true
      → check_snapshot s ≡ true
      → check_snapshot (after p n s) ≡ true
  unfolding check_payload check_snapshot
  after-check_snapshot (allocation_requested p) n s hp hs = ground (
    arith,
    widen laws (float.lit 1 1) (float.lit 0 0) (float.lit 128 0) p.target_cpu_cores,
    widen laws (float.lit 5 1) (float.lit 0 0) (float.lit 1024 0) p.target_memory_gb,
    laws.lit_le 0 0 1 1,
    laws.lit_le 0 0 5 1,
  )
  after-check_snapshot _ n s hp hs = hs

  -- A step on a state within the schema's bounds stays within them, for an event within them.
  pub reduce_node-check_snapshot :
      (state : Option (ResourceNodeSnapshot F)) (e : EventEnvelope F J) (t : ResourceNodeSnapshot F)
      → check_payload e.payload ≡ true
      → check_snapshot (or_initial state e.aggregate_id) ≡ true
      → reduce_node state e ≡ ok t
      → check_snapshot t ≡ true
  unfolding reduce_node
  reduce_node-check_snapshot state e t hp hs h =
      let s = or_initial state e.aggregate_id in
      elim (Bool-cases (leb e.sequence_id s.last_sequence_id)) [
        | inl old ↦ ground arith
        | inr new ↦
            let got = (reduce_node_new state e t (leb-false _ _ new)).0 h in
            rw got.1 (after-check_snapshot e.payload e.sequence_id s hp hs)
      ]

  replay_from-check_snapshot :
      (s t : ResourceNodeSnapshot F) (es : List (EventEnvelope F J))
      → All (λ e. check_payload e.payload ≡ true) es
      → check_snapshot s ≡ true
      → replay (some s) es ≡ ok (some t)
      → check_snapshot t ≡ true
  unfolding replay
  replay_from-check_snapshot s t [] hp hs h = let same : s ≡ t = cc in rw (← same) hs
  replay_from-check_snapshot s t (e ∷ es) hp hs h =
      let (s', first, rest) = replay-cons (some s) e es (some t) h in
      replay_from-check_snapshot s' t es hp.1
        (reduce_node-check_snapshot (some s) e s' hp.0 hs first) rest

  -- The node that a stream of valid events builds from nothing satisfies the bounds and the
  -- finiteness that `ResourceNodeSnapshot` states, though `model_copy` does not validate, if floats
  -- are ordered as doubles are.
  pub replay-check_snapshot :
      (es : List (EventEnvelope F J)) (t : ResourceNodeSnapshot F)
      → All (λ e. check_payload e.payload ≡ true) es
      → replay none es ≡ ok (some t)
      → check_snapshot t ≡ true
  unfolding replay
  replay-check_snapshot [] t hp h = cc
  replay-check_snapshot (e ∷ es) t hp h =
      let (s', first, rest) = replay-cons none e es (some t) h in
      replay_from-check_snapshot s' t es hp.1
        (reduce_node-check_snapshot none e s' hp.0 (initial-check_snapshot laws e.aggregate_id)
          first)
        rest
