-- ===== src/Tests/Policy.antt =====
-- Claims on two nodes.
use cloud_commander.Prelude.{◌≡◌, refl, ◌↔◌, List, [], ◌∷◌, map, arith, All, In}
use cloud_commander.Text.{Text, codes}
use cloud_commander.Uuid.{Uuid}
use cloud_commander.Errors.{ok}
use cloud_commander.Tests.Fixtures.{fractions, json_codec, toy_hasher}
use cloud_commander.Security.RbacPolicy.{Action, allocate, freeze, verify_permission}
use cloud_commander.Security.RbacPolicy.Laws.{claim, node_claims_exact}
use cloud_commander.Text.{strip}
use cloud_commander.Api.Dependencies.{get_current_user_claims}
use cloud_commander.Api.Dependencies.Laws.{IsClaim, get_current_user_claims-join}

abbrev grants : List (Action × Uuid)
grants = (allocate, 7) ∷ (freeze, 9) ∷ []

node_claims_exact_example :
    (verify_permission (map claim grants) freeze 7 ≡ ok tt) ↔ In (freeze, 7) grants
node_claims_exact_example =
    node_claims_exact grants freeze 7 (omega arith, (omega arith, tt)) (omega arith)

abbrev sent : List Text
sent = codes "admin" ∷ codes "freeze:node:*" ∷ []

sent-IsClaim : All IsClaim sent
unfolding strip
sent-IsClaim = (
  record { nonempty = λ e. cc; one_part = omega arith; trimmed = refl },
  (record { nonempty = λ e. cc; one_part = omega arith; trimmed = refl }, tt),
)

get_current_user_claims-join_example : get_current_user_claims (codes "admin,freeze:node:*") ≡ sent
get_current_user_claims-join_example = get_current_user_claims-join sent sent-IsClaim
