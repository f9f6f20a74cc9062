-- ===== src/Security/RbacPolicy/Laws.antt =====
-- What a claim allows.
use mathlib.Core.List.{append_cancel_left}
use cloud_commander.Prelude.{
  ℕ, ◌≡◌, refl, ap, ◌≢◌, ◌↔◌, ◌⊎◌, inl, inr, List, [], ◌∷◌, map, arith, Bool-cases, length, All, In,
}
use cloud_commander.Text.{Text, codes, contains}
use cloud_commander.Text.Laws.{contains-In, In-contains}
use cloud_commander.Uuid.{Uuid, uuid_str, IsUuid}
use cloud_commander.Uuid.Laws.{uuid_str-injective, length-uuid_str}
use cloud_commander.Errors.{ok, err, unauthorized}
use cloud_commander.Security.RbacPolicy.{
  Action, allocate, freeze, resolve, admin, required, wildcard, action_str, unauthorized_message,
  verify_permission,
}

-- What the policy promises: an admin, a claim for the node, or a claim for every node.
abbrev pub Permits : List Text → Action → Uuid → Type 0
Permits claims action node =
    In admin claims ⊎ (In (required action node) claims ⊎ In (wildcard action) claims)

-- The check passes exactly for an actor with the admin claim, the claim for the action on the node,
-- or the claim for the action on every node.
pub verify_permission-eq-ok :
    (claims : List Text) (action : Action) (node : Uuid)
    → (verify_permission claims action node ≡ ok tt) ↔ Permits claims action node
unfolding verify_permission
verify_permission-eq-ok claims action node = (passes, allowed)
  where
    passes : verify_permission claims action node ≡ ok tt → Permits claims action node
    passes h = elim (Bool-cases (contains admin claims)) [
      | inl e ↦ inl (contains-In _ _ e)
      | inr e ↦ elim (Bool-cases (contains (required action node) claims)) [
        | inl e' ↦ inr (inl (contains-In _ _ e'))
        | inr e' ↦ elim (Bool-cases (contains (wildcard action) claims)) [
          | inl e'' ↦ inr (inr (contains-In _ _ e''))
          | inr e'' ↦ ground arith
        ]
      ]
    ]

    allowed : Permits claims action node → verify_permission claims action node ≡ ok tt
    allowed (inl i) = rw (In-contains _ _ i)
    allowed (inr (inl i)) = ground (arith, In-contains _ _ i)
    allowed (inr (inr i)) = ground (arith, In-contains _ _ i)

-- Who is not permitted gets the error with the action and the node in its message.
pub verify_permission-cases :
    (claims : List Text) (action : Action) (node : Uuid)
    → (verify_permission claims action node ≡ ok tt)
      ⊎ (verify_permission claims action node
          ≡ err (unauthorized (unauthorized_message action node)))
unfolding verify_permission
verify_permission-cases claims action node = ground arith

star-ne-uuid_str : (node : Uuid) → codes "*" ≢ uuid_str node
star-ne-uuid_str node e = omega (arith, ap {B = ℕ} length e, length-uuid_str node)

required-ne-admin : (action : Action) (node : Uuid) → admin ≢ required action node
unfolding admin required action_str
required-ne-admin allocate node e = cc
required-ne-admin freeze node e = cc
required-ne-admin resolve node e = cc

abbrev first_code : Text → ℕ
first_code [] = 0
first_code (c ∷ s) = c

required-ne-wildcard : (a b : Action) (node : Uuid) → wildcard a ≢ required b node
unfolding wildcard required action_str
required-ne-wildcard allocate allocate node e =
    star-ne-uuid_str node (append_cancel_left (codes "allocate:node:") _ _ e)
required-ne-wildcard freeze freeze node e =
    star-ne-uuid_str node (append_cancel_left (codes "freeze:node:") _ _ e)
required-ne-wildcard resolve resolve node e =
    star-ne-uuid_str node (append_cancel_left (codes "resolve:node:") _ _ e)
required-ne-wildcard _ _ node e = omega (arith, ap {B = ℕ} first_code e)

required-injective :
    (a b : Action) (n m : Uuid)
    → IsUuid n
    → IsUuid m
    → required a n ≡ required b m
    → (a ≡ b) × (n ≡ m)
unfolding required action_str
required-injective allocate allocate n m hn hm e =
    (refl, uuid_str-injective n m hn hm (append_cancel_left (codes "allocate:node:") _ _ e))
required-injective freeze freeze n m hn hm e =
    (refl, uuid_str-injective n m hn hm (append_cancel_left (codes "freeze:node:") _ _ e))
required-injective resolve resolve n m hn hm e =
    (refl, uuid_str-injective n m hn hm (append_cancel_left (codes "resolve:node:") _ _ e))
required-injective _ _ n m hn hm e = absurd (omega (arith, ap {B = ℕ} first_code e))

-- The claim for one action on one node.
abbrev pub claim : Action × Uuid → Text
claim (action, node) = required action node

In-claim :
    (grants : List (Action × Uuid)) (action : Action) (node : Uuid)
    → All (λ g. IsUuid g.1) grants
    → IsUuid node
    → In (required action node) (map claim grants)
    → In (action, node) grants
In-claim [] action node hs h i = i
In-claim ((a, n) ∷ grants) action node hs h (inl e) =
    let same = required-injective action a node n h hs.0 e in inl (cc (same.0, same.1))
In-claim (g ∷ grants) action node hs h (inr i) = inr (In-claim grants action node hs.1 h i)

In-map-claim :
    (grants : List (Action × Uuid)) (g : Action × Uuid)
    → In g grants
    → In (claim g) (map claim grants)
In-map-claim [] g i = i
In-map-claim (x ∷ grants) g (inl e) = inl (ap claim e)
In-map-claim (x ∷ grants) g (inr i) = inr (In-map-claim grants g i)

no_claim_is :
    (t : Text) (grants : List (Action × Uuid))
    → ((g : Action × Uuid) → t ≢ claim g)
    → ¬ In t (map claim grants)
no_claim_is t [] ne i = i
no_claim_is t (g ∷ grants) ne (inl e) = ne g e
no_claim_is t (g ∷ grants) ne (inr i) = no_claim_is t grants ne i

-- An actor whose claims are each for one action on one node may do exactly those actions on those
-- nodes, and nothing on any other node, where ids have 128 bits.
pub node_claims_exact :
    (grants : List (Action × Uuid)) (action : Action) (node : Uuid)
    → All (λ g. IsUuid g.1) grants
    → IsUuid node
    → (verify_permission (map claim grants) action node ≡ ok tt) ↔ In (action, node) grants
node_claims_exact grants action node hs h = (
  granted,
  λ i. (verify_permission-eq-ok _ _ _).1 (inr (inl (In-map-claim grants (action, node) i))),
)
  where
    by_claim : Permits (map claim grants) action node → In (action, node) grants
    by_claim (inl i) = absurd (no_claim_is admin grants (λ g. required-ne-admin g.0 g.1) i)
    by_claim (inr (inl i)) = In-claim grants action node hs h i
    by_claim (inr (inr i)) =
        absurd (no_claim_is (wildcard action) grants (λ g. required-ne-wildcard action g.0 g.1) i)

    granted : verify_permission (map claim grants) action node ≡ ok tt → In (action, node) grants
    granted p = by_claim ((verify_permission-eq-ok _ _ _).0 p)
