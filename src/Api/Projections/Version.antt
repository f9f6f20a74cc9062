-- ===== src/Api/Projections/Version.antt =====
-- What an upsert of the worker does to the routes' answers.
use cloud_commander.Prelude.{
  max, ◌≡◌, refl, ap, ◌≢◌, inl, inr, ◌&&◌, List, [], ◌∷◌, arith, ◌==◌, if◌then◌else◌, Bool-cases,
}
use cloud_commander.Uuid.{Uuid}
use cloud_commander.Errors.{ok}
use cloud_commander.Domain.Schemas.{ResourceNodeSnapshot}
use cloud_commander.Infrastructure.Database.{NodeRow, Db}
use cloud_commander.Infrastructure.Repository.{find_node, upsert_row, upsert_node_projection}
use cloud_commander.Infrastructure.Repository.Nodes.{newest, find_node-upsert_row, find_node-other}
use cloud_commander.Api.Projections.{EdgeRow, graph_version, get_service_graph_projection, get_node}

graph_version-upsert_row :
    {F : Type 0} (row : NodeRow F) (rows : List (NodeRow F))
    → graph_version row.tenant_id (upsert_row row rows)
      ≡ max row.snapshot.last_sequence_id (graph_version row.tenant_id rows)
unfolding graph_version upsert_row
graph_version-upsert_row row [] = ground arith
graph_version-upsert_row row (r ∷ rows) = ground (arith, graph_version-upsert_row row rows)

graph_version-other :
    {F : Type 0} (tenant : Uuid) (row : NodeRow F) (rows : List (NodeRow F))
    → tenant ≢ row.tenant_id
    → graph_version tenant (upsert_row row rows) ≡ graph_version tenant rows
unfolding graph_version upsert_row
graph_version-other tenant row [] other = ground arith
graph_version-other tenant row (r ∷ rows) other =
    ground (arith, graph_version-other tenant row rows other)

module _ {F J : Type 0} where
  get_node-upsert :
      (tenant : Uuid) (s : ResourceNodeSnapshot F) (db : Db F J)
      → get_node s.node_id tenant (upsert_node_projection tenant s db)
        ≡ ok (newest (find_node tenant s.node_id db.nodes) s)
  unfolding get_node upsert_node_projection
  get_node-upsert tenant s db =
      let (r, found, same) =
        find_node-upsert_row (record { tenant_id = tenant; snapshot = s }) db.nodes in
      rw (found, get_node) (ap ok same)

  -- After an upsert of a projection the node route answers for its node with the newer of the
  -- stored snapshot and the new one, the stored one if they are equally new, the graph of its
  -- tenant has the larger of the two versions, and the answers about other nodes and the versions
  -- of other tenants are what they were.
  pub projection_upsert :
      (tenant other node : Uuid) (s : ResourceNodeSnapshot F) (edges : List EdgeRow) (db : Db F J)
      → let db' = upsert_node_projection tenant s db in
        (get_node node other db' ≡ (
          if tenant == other && s.node_id == node
          then ok (newest (find_node other node db.nodes) s)
          else get_node node other db))
        × ((get_service_graph_projection other edges db').version ≡ (
            if tenant == other
            then max s.last_sequence_id (get_service_graph_projection other edges db).version
            else (get_service_graph_projection other edges db).version))
  unfolding get_node upsert_node_projection get_service_graph_projection
  projection_upsert tenant other node s edges db = (
    elim (Bool-cases (tenant == other && s.node_id == node)) [
      | inl e ↦
          let t : tenant ≡ other = ground arith in
          let n : s.node_id ≡ node = ground arith in
          rw e (rw⁻¹ (t, n) (get_node-upsert tenant s db))
      | inr e ↦ rw e (rw (find_node-other other node row db.nodes e, get_node) refl)
    ],
    elim (Bool-cases (tenant == other)) [
      | inl e ↦
          let t : tenant ≡ other = ground arith in
          rw e (rw⁻¹ t (graph_version-upsert_row row db.nodes))
      | inr e ↦ rw e (graph_version-other other row db.nodes (ground arith))
    ],
  )
    where
      row : NodeRow F
      row = record { tenant_id = tenant; snapshot = s }
