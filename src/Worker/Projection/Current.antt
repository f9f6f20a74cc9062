-- ===== src/Worker/Projection/Current.antt =====
-- What the read side of a node shows when its stream has been projected.
use cloud_commander.Prelude.{
  ℕ, ◌≡◌, refl, ap, ◌∙◌, inl, inr, Option, none, some, List, [], ◌∷◌, Option-cases, All, All-of,
}
use cloud_commander.Text.{codes}
use cloud_commander.Uuid.{Uuid}
use cloud_commander.Float.{Float, IsOrdered}
use cloud_commander.Errors.{Result, ok, err, http, ◌>>=◌}
use cloud_commander.Security.HashChain.{Hasher}
use cloud_commander.Domain.Schemas.{EventEnvelope, ResourceNodeSnapshot}
use cloud_commander.Domain.Reducers.{replay}
use cloud_commander.Infrastructure.Database.{EventRow, Db}
use cloud_commander.Infrastructure.Repository.{Codec, select_events, find_node, get_events}
use cloud_commander.Infrastructure.Repository.Read.{Maps, map_record-fields, get_events-eq-ok}
use cloud_commander.Infrastructure.Repository.Select.{Selected, select_events-All}
use cloud_commander.Api.Projections.{get_node}
use cloud_commander.Worker.Projection.{project_all, stored, OfStream, project_all-replay}

module _ {F J : Type 0} ⦃float : Float F⦄ ⦃codec : Codec F J⦄ where
  Maps-OfStream :
      (tenant node : Uuid) (n : ℕ) (rows : List (EventRow J)) (es : List (EventEnvelope F J))
      → Maps rows es
      → All (Selected tenant node n) rows
      → All (OfStream tenant node) es
  Maps-OfStream tenant node n [] [] m s = tt
  Maps-OfStream tenant node n [] (e ∷ es) m s = absurd m
  Maps-OfStream tenant node n (r ∷ rows) [] m s = absurd m
  Maps-OfStream tenant node n (r ∷ rows) (e ∷ es) m s =
      let (t, a, q, good) = map_record-fields r e m.0 in
      ((t ∙ s.0.0, a ∙ s.0.1, good), Maps-OfStream tenant node n rows es m.1 s.1)

  -- What is read is of the stream that was asked for.
  get_events-OfStream :
      ⦃hasher : Hasher J⦄ (tenant node : Uuid) (n : ℕ) (db : Db F J) (es : List (EventEnvelope F J))
      → get_events tenant node n db ≡ ok es
      → All (OfStream tenant node) es
  get_events-OfStream tenant node n db es h =
      let rows = select_events tenant node n db.events in
      Maps-OfStream tenant node n rows es ((get_events-eq-ok tenant node n db es).0 h).1 (
        select_events-All tenant node n (Selected tenant node n) db.events
          (All-of (λ r. Selected tenant node n r → Selected tenant node n r) (λ r s. s) db.events))

-- The answer of the node route about a state of the node
unfoldable pub shown :
    {F : Type 0} → Option (ResourceNodeSnapshot F) → Result (ResourceNodeSnapshot F)
shown none = err (http 404 (codes "Node projection not found"))
shown (some s) = ok s

module _ {F J : Type 0} where
  pub get_node-shown :
      (tenant node : Uuid) (db : Db F J) → get_node node tenant db ≡ shown (stored tenant node db)
  unfolding get_node shown stored
  get_node-shown tenant node db = elim (Option-cases (find_node tenant node db.nodes)) [
    | inl e ↦ rw (e, get_node) refl
    | inr (r, e) ↦ rw (e, get_node) refl
  ]

  shows :
      (tenant node : Uuid) (d : Result (Db F J))
      → (d >>= λ x. get_node node tenant x) ≡ ((d >>= λ x. ok (stored tenant node x)) >>= shown)
  shows tenant node (ok x) = get_node-shown tenant node x
  shows tenant node (err x) = refl

module _ {F J : Type 0} ⦃float : Float F⦄ ⦃hasher : Hasher J⦄ ⦃codec : Codec F J⦄
    (laws : IsOrdered F) where
  -- When a stream has been read and its events are projected one by one to a read model that had no
  -- projection of the node, the node route answers the state that replaying the same events from
  -- nothing gives (which is what a command is validated against), it answers 404 if there is no
  -- event, and an error is that of the replay, if floats are ordered as doubles are.
  pub get_node-replay :
      (tenant node : Uuid) (db read : Db F J) (es : List (EventEnvelope F J))
      → get_events tenant node 0 db ≡ ok es
      → stored tenant node read ≡ none
      → (project_all es read >>= λ d. get_node node tenant d) ≡ (replay none es >>= shown)
  get_node-replay tenant node db read es h new =
      let same =
        project_all-replay laws tenant node es read (get_events-OfStream tenant node 0 db es h)
          (rw new tt) in
      shows tenant node (project_all es read)
      ∙ ap (λ o. o >>= shown) (same ∙ ap (λ o. replay o es) new)
