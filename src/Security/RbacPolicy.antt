-- ===== src/Security/RbacPolicy.antt =====
-- app/security/rbac_policy.py
pub mod Laws
use cloud_commander.Prelude.{not, ◌&&◌, List, ◌++◌, if◌then◌else◌}
use cloud_commander.Text.{Text, codes, contains}
use cloud_commander.Uuid.{Uuid, uuid_str}
use cloud_commander.Errors.{Result, ok, err, unauthorized}

pub data Action : Type 0 where
  allocate freeze resolve : Action

unfoldable pub action_str : Action → Text
action_str allocate = codes "allocate"
action_str freeze = codes "freeze"
action_str resolve = codes "resolve"

unfoldable pub admin : Text
admin = codes "admin"

-- f"{required_action}:node:{str(target_node_id)}"
unfoldable pub required : Action → Uuid → Text
required action node = action_str action ++ codes ":node:" ++ uuid_str node

-- f"{required_action}:node:*"
unfoldable pub wildcard : Action → Text
wildcard action = action_str action ++ codes ":node:*"

unfoldable pub unauthorized_message : Action → Uuid → Text
unauthorized_message action node =
    codes "Actor lacks '" ++ action_str action ++ codes "' claim for node " ++ uuid_str node

unfoldable pub verify_permission : List Text → Action → Uuid → Result (Unit {0})
verify_permission claims action node =
    if contains admin claims
    then ok tt
    else if not (contains (required action node) claims) && not (contains (wildcard action) claims)
    then err (unauthorized (unauthorized_message action node))
    else ok tt
