-- ===== src/Infrastructure/Repository/Nodes.antt =====
-- What an upsert does to the rows of read_model_nodes.
use cloud_commander.Prelude.{
  ◌≡◌, refl, inl, inr, true, false, Option, none, some, List, [], ◌∷◌, arith, ltb, if◌then◌else◌,
  Bool-cases,
}
use cloud_commander.Uuid.{Uuid}
use cloud_commander.Domain.Schemas.{ResourceNodeSnapshot}
use cloud_commander.Infrastructure.Database.{NodeRow}
use cloud_commander.Infrastructure.Repository.{is_node, find_node, upsert_row}

-- The snapshot that an upsert leaves in the row of its node
abbrev pub newest :
    {F : Type 0} → Option (NodeRow F) → ResourceNodeSnapshot F → ResourceNodeSnapshot F
newest none s = s
newest (some r) s = if ltb r.snapshot.last_sequence_id s.last_sequence_id then s else r.snapshot

pub find_node-upsert_row :
    {F : Type 0} (row : NodeRow F) (rows : List (NodeRow F))
    → (r : NodeRow F) × (find_node row.tenant_id row.snapshot.node_id (upsert_row row rows)
        ≡ some r)
      × (r.snapshot ≡ newest (find_node row.tenant_id row.snapshot.node_id rows) row.snapshot)
unfolding find_node upsert_row
find_node-upsert_row row [] = (row, ground arith, refl)
find_node-upsert_row row (r ∷ rows) =
    elim (Bool-cases (is_node row.tenant_id row.snapshot.node_id r)) [
      | inl e ↦ elim (Bool-cases (ltb r.snapshot.last_sequence_id row.snapshot.last_sequence_id)) [
        | inl l ↦ rw (e, l) (row, ground arith, refl)
        | inr l ↦ rw (e, l) (r, rw e refl, refl)
      ]
      | inr e ↦ rw e (let (q, found, same) = find_node-upsert_row row rows in (q, rw e found, same))
    ]

pub find_node-other :
    {F : Type 0} (tenant node : Uuid) (row : NodeRow F) (rows : List (NodeRow F))
    → is_node tenant node row ≡ false
    → find_node tenant node (upsert_row row rows) ≡ find_node tenant node rows
unfolding find_node upsert_row
find_node-other tenant node row [] other = ground arith
find_node-other tenant node row (r ∷ rows) other =
    ground (arith, find_node-other tenant node row rows other)

-- The row that is found is one of the node.
pub find_node-is_node :
    {F : Type 0} (tenant node : Uuid) (r : NodeRow F) (rows : List (NodeRow F))
    → find_node tenant node rows ≡ some r
    → is_node tenant node r ≡ true
unfolding find_node
find_node-is_node tenant node r [] h = cc
find_node-is_node tenant node r (q ∷ rows) h = elim (Bool-cases (is_node tenant node q)) [
  | inl e ↦ let same : q ≡ r = cc (rw (e, find_node) at h) in rw⁻¹ same e
  | inr e ↦ find_node-is_node tenant node r rows (rw (e, find_node) at h)
]
