-- ===== src/Api/Projections.antt =====
-- app/api/routers/projections.py: the two read routes. Nothing under app/ writes
-- read_model_service_graph_edges, so that table is an argument of its own.
pub mod Version
use cloud_commander.Prelude.{
  ℕ, max, Bool, not, ◌&&◌, ◌||◌, none, some, List, [], ◌∷◌, map, ltb, leb, ◌==◌, if◌then◌else◌,
}
use cloud_commander.Text.{Text, codes}
use cloud_commander.Uuid.{Uuid, uuid_str}
use cloud_commander.Errors.{Result, ok, err, http}
use cloud_commander.Domain.Schemas.{LifecycleState, ResourceNodeSnapshot}
use cloud_commander.Infrastructure.Database.{NodeRow, Db}
use cloud_commander.Infrastructure.Repository.{find_node}

-- read_model_service_graph_edges
pub record EdgeRow : Type 0 where
  pub tenant_id : Uuid
  pub source_node_id : Uuid
  pub target_node_id : Uuid
  pub last_sequence_id : ℕ

-- The JSON object that the graph route answers
pub record GraphProjection : Type 0 where
  pub tenant_id : Text
  pub version : ℕ
  pub nodes : List Text
  pub edges : List (Text × Text)

-- ORDER BY node_id
unfoldable pub insert_id : Uuid → List Uuid → List Uuid
insert_id id [] = id ∷ []
insert_id id (other ∷ ids) =
    let rest = insert_id id ids in if leb id other then id ∷ other ∷ ids else other ∷ rest

-- node_query
unfoldable pub node_ids : {F : Type 0} → Uuid → List (NodeRow F) → List Uuid
unfolding insert_id
node_ids tenant [] = []
node_ids tenant (r ∷ rows) =
    let rest = node_ids tenant rows in
    if r.tenant_id == tenant then insert_id r.snapshot.node_id rest else rest

abbrev pub edge_le : Uuid × Uuid → Uuid × Uuid → Bool
edge_le (s, t) (s', t') = ltb s s' || (s == s' && leb t t')

-- ORDER BY source_node_id, target_node_id
unfoldable pub insert_edge : Uuid × Uuid → List (Uuid × Uuid) → List (Uuid × Uuid)
insert_edge e [] = e ∷ []
insert_edge e (other ∷ edges) =
    let rest = insert_edge e edges in if edge_le e other then e ∷ other ∷ edges else other ∷ rest

-- edge_query
unfoldable pub edge_ids : Uuid → List EdgeRow → List (Uuid × Uuid)
unfolding insert_edge
edge_ids tenant [] = []
edge_ids tenant (r ∷ rows) =
    let rest = edge_ids tenant rows in
    if r.tenant_id == tenant then insert_edge (r.source_node_id, r.target_node_id) rest else rest

-- version_query: COALESCE(MAX(last_sequence_id), 0)
unfoldable pub graph_version : {F : Type 0} → Uuid → List (NodeRow F) → ℕ
graph_version tenant [] = 0
graph_version tenant (r ∷ rows) =
    let rest = graph_version tenant rows in
    if r.tenant_id == tenant then max r.snapshot.last_sequence_id rest else rest

module _ {F J : Type 0} where
  unfoldable pub get_service_graph_projection : Uuid → List EdgeRow → Db F J → GraphProjection
  unfolding node_ids edge_ids graph_version
  get_service_graph_projection tenant edges db = record {
    tenant_id = uuid_str tenant;
    version = graph_version tenant db.nodes;
    nodes = map uuid_str (node_ids tenant db.nodes);
    edges = map (λ e. (uuid_str e.0, uuid_str e.1)) (edge_ids tenant edges);
  }

  -- `dict(record)`: the selected columns are those of the snapshot.
  unfoldable pub get_node : Uuid → Uuid → Db F J → Result (ResourceNodeSnapshot F)
  unfolding find_node
  get_node node tenant db = elim (find_node tenant node db.nodes) [
    | none ↦ err (http 404 (codes "Node projection not found"))
    | some r ↦ ok r.snapshot
  ]
