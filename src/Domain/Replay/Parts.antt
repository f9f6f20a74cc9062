-- ===== src/Domain/Replay/Parts.antt =====
-- A replay in two parts, and what it has seen.
use cloud_commander.Prelude.{
  ℕ, ◌≤◌, ◌≡◌, refl, inl, inr, Option, none, some, List, [], ◌∷◌, ◌++◌, arith, All,
}
use cloud_commander.Uuid.{Uuid}
use cloud_commander.Float.{Float}
use cloud_commander.Errors.{ok, ◌>>=◌, Result-cases}
use cloud_commander.Domain.Schemas.{EventEnvelope, ResourceNodeSnapshot}
use cloud_commander.Domain.Reducers.{or_initial, reduce_node, replay}
use cloud_commander.Domain.Replay.{replay-cons, last-reduce_node}

-- The sequence number that a state stands at
abbrev pub position : {F : Type 0} → Option (ResourceNodeSnapshot F) → ℕ
position none = 0
position (some s) = s.last_sequence_id

pub position-initial :
    {F : Type 0} ⦃float : Float F⦄ (state : Option (ResourceNodeSnapshot F)) (node : Uuid)
    → (or_initial state node).last_sequence_id ≡ position state
position-initial none node = refl
position-initial (some s) node = refl

module _ {F J : Type 0} ⦃float : Float F⦄ where
  pub replay-append :
      (state : Option (ResourceNodeSnapshot F)) (xs ys : List (EventEnvelope F J))
      → replay state (xs ++ ys) ≡ (replay state xs >>= λ s. replay s ys)
  unfolding replay
  replay-append state [] ys = refl
  replay-append state (e ∷ xs) ys = elim (Result-cases (reduce_node state e)) [
    | inr (x, h) ↦ rw (h, replay) refl
    | inl (s, h) ↦ rw (h, replay) (replay-append (some s) xs ys)
  ]

  -- What a replay leaves stands at no event that is behind one of the stream.
  pub replay-position :
      (state : Option (ResourceNodeSnapshot F)) (es : List (EventEnvelope F J))
      (r : Option (ResourceNodeSnapshot F))
      → replay state es ≡ ok r
      → (position state ≤ position r) × All (λ e. e.sequence_id ≤ position r) es
  unfolding replay
  replay-position state [] r h = let same : state ≡ r = cc in rw same (omega arith, tt)
  replay-position state (e ∷ es) r h =
      let (s, step, rest) = replay-cons state e es r h in
      let (newer, all) = replay-position (some s) es r rest in
      let moved = (last-reduce_node state e s step).0 in
      let start = position-initial state e.aggregate_id in
      (omega (arith, moved, newer, start), (omega (arith, moved, newer, start), all))
